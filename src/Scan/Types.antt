-- ===== src/Scan/Types.antt =====
-- `disk_t`, `latency_t` and the enumerations of include/diskscan.h, `struct scan_state` of
-- lib/diskscan.c, and what the scan uses of the platform and of HdrHistogram.
use diskscan.Base.{ℕ, Bool, List, Option}
use diskscan.Device.Types.{IoResult}

pub data ScanMode : Type 0 where
  scan_mode_unknown scan_mode_seq scan_mode_random : ScanMode

pub data Conclusion : Type 0 where
  scan_problem aborted passed : Conclusion
  failed_max_latency failed_latency_percentile failed_io_errors : Conclusion

pub record Latency : Type 0 where
  pub start_sector : ℕ
  pub end_sector : ℕ
  pub latency_min_msec : ℕ
  pub latency_max_msec : ℕ
  pub latency_median_msec : ℕ

-- What `data_log_event` of lib/data.c writes.
pub record LogEvent : Type 0 where
  pub lba : ℕ
  pub len : ℕ
  pub io_res : IoResult
  pub t_nsec : ℕ

-- The fields of `disk_t` that a scan uses, over the histogram's type. A log is `none` where its
-- file is not open, else the events written so far, the newest first.
pub record Disk (H : Type 0) : Type 0 where
  pub is_ata : Bool
  pub num_bytes : ℕ
  pub sector_size : ℕ
  pub run : Bool
  pub fix : Bool
  pub num_errors : ℕ
  pub histogram : H
  pub latency_graph_len : ℕ
  pub latency_graph : List Latency
  pub conclusion : Conclusion
  pub data_raw : Option (List LogEvent)
  pub data_log : Option (List LogEvent)

-- `data` is the read buffer, `reports` what went to `report_progress`, the newest first.
pub record ScanState : Type 0 where
  pub latency_bucket : ℕ
  pub latency_stride : ℕ
  pub latency_count : ℕ
  pub latency : List ℕ
  pub buffer : List ℕ
  pub progress_bytes : ℕ
  pub progress_part : ℕ
  pub progress_full : ℕ
  pub num_unknown_errors : ℕ
  pub reports : List ℕ

-- A timed `disk_dev_read`: what it leaves in the buffer and in `*io_res`, `errno`, the nanoseconds
-- that it took, and whether a signal ran `disk_scan_stop` before the end of `disk_scan_part`, which
-- itself does not look at `run`.
pub record ReadOutcome : Type 0 where
  pub buffer : List ℕ
  pub io_res : IoResult
  pub errno : ℕ
  pub t : ℕ
  pub stop : Bool

-- The platform's calls over its own state, the SMART monitor among them.
pub record Platform (W : Type 0) : Type 0 where
  pub read : W → ℕ → ℕ → List ℕ → ReadOutcome × W
  pub write : W → ℕ → ℕ → List ℕ → List ℕ × W
  pub monitor : W → Bool × W

-- HdrHistogram: values in microseconds, and the percentile in hundredths of a percent.
pub record Histogram (H : Type 0) : Type 0 where
  pub record_value : H → ℕ → H
  pub max_value : H → ℕ
  pub value_at_percentile : H → ℕ → ℕ
