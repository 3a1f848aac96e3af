-- ===== src/Scan/Run.antt =====
-- `conclusion_calc` and `disk_scan` of lib/diskscan.c. The scheduler calls and the messages have no
-- effect on the scan and are left out.
pub mod Tally
pub mod Verdict
pub mod Unsignalled
pub mod ReadOnly
pub mod Kept
pub mod Empty
pub mod Ready
pub mod Returns
pub mod Plan
pub mod Total
use diskscan.Base.{
  Bool, ℕ, zero, suc, ◌+◌, ◌-◌, ◌*◌, ◌%◌, true, false, ◌&&◌, Option, none, some, List, [],
  replicate, ltb, ◌==◌, if◌then◌else◌, u32, u64, ◌>>=◌,
}
use diskscan.Scan.Types.{
  Disk, ScanState, Platform, Histogram, ScanMode, Conclusion, scan_problem, aborted, passed,
  failed_max_latency, failed_latency_percentile, failed_io_errors,
}
use diskscan.Scan.Order.{calc_latency_stride, calc_scan_order}
use diskscan.Scan.Buckets.{latency_bucket_prepare, latency_bucket_finish}
use diskscan.Scan.Stride.{progress_calc, disk_scan_latency_stride}
use diskscan.Scan.Part.{disk_scan_stop}

-- The data size in whole sectors, one at least.
unfoldable pub adjust_size : ℕ → ℕ → ℕ
adjust_size sector_size data_size =
    if data_size % sector_size == 0
    then data_size
    else (let whole = data_size - data_size % sector_size in
        if whole == 0 then u32 sector_size else whole)

-- `struct scan_state state = {...}` and the assignments after it.
unfoldable pub new_state : ℕ → List ℕ → ScanState
new_state latency_stride buffer = record {
  latency_bucket = 0;
  latency_stride = latency_stride;
  latency_count = 0;
  latency = replicate latency_stride 0;
  buffer = buffer;
  progress_bytes = 0;
  progress_part = 0;
  progress_full = 1000;
  num_unknown_errors = 0;
  reports = [];
}

module _ {W H : Type 0} (platform : Platform W) (hist : Histogram H) where
  unfoldable pub conclusion_calc : Disk H → Conclusion
  conclusion_calc disk =
      if ltb 0 disk.num_errors
      then failed_io_errors
      else if ltb 10_000_000 (hist.max_value disk.histogram)
      then failed_max_latency
      else if ltb 8_000_000 (hist.value_at_percentile disk.histogram 9999)
      then failed_latency_percentile
      else passed

  -- The SMART monitor runs after a stride; a signal may stop the scan meanwhile.
  unfoldable pub run_monitor : Disk H → W → Disk H × W
  run_monitor disk w =
      let (stop, w') = platform.monitor w in (if stop then disk_scan_stop disk else disk, w')

  -- One turn: a stride with its bucket, then the monitor. The flag is false where the scan breaks
  -- off.
  unfoldable pub scan_stride :
      Disk H → ScanState → W → ℕ → ℕ → List ℕ → Option (Bool × Disk H × ScanState × W)
  scan_stride disk state w offset data_size scan_order = do
    (d1, s1) ← latency_bucket_prepare disk (progress_calc disk state 0) offset
    (go_on, d2, s2, w2) ← disk_scan_latency_stride platform hist d1 s1 w offset data_size scan_order
    if go_on
        then (do
          (d3, s3) ← latency_bucket_finish d2 s2 (u64 (offset + s2.latency_stride * d2.sector_size))
          let (d4, w4) = run_monitor d3 w2
          some (true, d4, s3, w4))
        else some (false, d2, s2, w2)

  -- The loop over the strides, with fuel.
  unfoldable pub scan_loop :
      ℕ → Disk H → ScanState → W → ℕ → ℕ → List ℕ → Option (Disk H × ScanState × W)
  scan_loop zero disk state w offset data_size scan_order = none
  scan_loop (suc fuel) disk state w offset data_size scan_order =
      if disk.run && ltb offset disk.num_bytes
      then (do
        (go_on, d, s, w') ← scan_stride disk state w offset data_size scan_order
        let next = u64 (offset + s.latency_stride * d.sector_size)
        let rest = scan_loop fuel d s w' next data_size scan_order
        if go_on then rest else some (d, s, w'))
      else some (disk, state, w)

  -- The part of `disk_scan` after the plan is made, `none` where it could not be. The graph has a
  -- bucket for each stride, so its length and one more are fuel enough.
  unfoldable pub run_plan : Disk H → ScanState → W → ℕ → Option (List ℕ) → Option (ℕ × Disk H × W)
  run_plan disk state w data_size none = some (1, record disk { run = false }, w)
  run_plan disk state w data_size (some scan_order) = do
    (d1, s1, w1) ← scan_loop (disk.latency_graph_len + 1) disk state w 0 data_size scan_order
    let verdict = if d1.run then conclusion_calc d1 else aborted
    some (0, record d1 { run = false; conclusion = verdict }, w1)

  -- The buffer is `none` where its allocation gives NULL, which mmap does not. The result is the return value, 0 or 1.
  unfoldable pub disk_scan :
      (ℕ → ℕ) → Option (List ℕ) → Disk H → W → ScanMode → ℕ → Option (ℕ × Disk H × W)
  disk_scan rand none disk w mode data_size =
      some (1, record disk { run = false; conclusion = scan_problem }, w)
  disk_scan rand (some buffer) disk w mode data_size =
      let d0 = record disk { run = true; conclusion = scan_problem } in
      let size = adjust_size disk.sector_size data_size in
      let stride = calc_latency_stride disk.num_bytes disk.sector_size disk.latency_graph_len in
      calc_scan_order rand disk.sector_size mode stride size >>= λ planned.
      run_plan d0 (new_state stride buffer) w size planned
