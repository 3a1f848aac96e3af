-- ===== src/Scan/Part.antt =====
-- `disk_scan_part` of lib/diskscan.c with the log functions of lib/data.c: one timed read, its
-- accounting and the repair. The size is the pattern of an `int`. `none` is an access outside an
-- array, or a repair loop that does not end.
pub mod Account
pub mod Repair
pub mod Returns
use diskscan.Base.{
  ℕ, zero, suc, ◌+◌, ◌-◌, ◌*◌, ◌/◌, ◌%◌, ◌^◌, Bool, true, false, ◌&&◌, ◌||◌, not, Option, none,
  some, List, ◌∷◌, length, ltb, ◌==◌, if◌then◌else◌, u32, u64, slt32, widen, ◌>>=◌,
}
use diskscan.Cdb.{zero_bytes}
use diskscan.Device.Types.{
  IoResult, ResultData, data_full, data_partial, data_none, ResultError, error_none,
  error_corrected, error_uncorrected, error_need_retry, error_fatal, error_unknown,
}
use diskscan.Scan.Types.{Disk, ScanState, LogEvent, ReadOutcome, Platform, Histogram}
use diskscan.Scan.Buckets.{latency_bucket_add}

abbrev pub is_full : ResultData → Bool
is_full data_full = true
is_full _ = false

abbrev pub is_none : ResultError → Bool
is_none error_none = true
is_none _ = false

abbrev pub is_uncorrected : ResultError → Bool
is_uncorrected error_uncorrected = true
is_uncorrected _ = false

abbrev pub is_fatal : ResultError → Bool
is_fatal error_fatal = true
is_fatal _ = false

abbrev pub is_unknown : ResultError → Bool
is_unknown error_unknown = true
is_unknown _ = false

-- `io_res.data != DATA_FULL || io_res.error != ERROR_NONE`
abbrev pub has_error : IoResult → Bool
has_error r = not (is_full r.result) || not (is_none r.error)

-- `EIO`
abbrev pub eio : ℕ
eio = 5

abbrev pub log_event : Option (List LogEvent) → LogEvent → Option (List LogEvent)
log_event none e = none
log_event (some es) e = some (e ∷ es)

unfoldable pub data_log_raw : Option (List LogEvent) → ℕ → ℕ → IoResult → ℕ → Option (List LogEvent)
data_log_raw log lba len io_res t_nsec =
    log_event log (record { lba = lba; len = len; io_res = io_res; t_nsec = t_nsec })

unfoldable pub data_log : Option (List LogEvent) → ℕ → ℕ → IoResult → ℕ → Option (List LogEvent)
data_log log lba len io_res t_nsec =
    if has_error io_res || ltb (1000 * 1000 * 1000) t_nsec
    then log_event log (record { lba = lba; len = len; io_res = io_res; t_nsec = t_nsec })
    else log

-- `disk_scan_stop`, which the signal handler runs.
unfoldable pub disk_scan_stop : {H : Type 0} → Disk H → Disk H
disk_scan_stop disk = record disk { run = false }

-- What becomes of the scan after the outcome of a read has been looked at.
pub data Verdict : Type 0 where
  bail_out go_on : Verdict

module _ {H : Type 0} where
  -- The logging.
  unfoldable pub log_read : Disk H → ℕ → ℕ → ReadOutcome → Disk H
  unfolding disk_scan_stop
  log_read disk offset data_size o =
      let d = if o.stop then disk_scan_stop disk else disk in
      let lba = offset / disk.sector_size in
      let len = u32 (widen data_size / disk.sector_size) in
      record d {
        data_raw = data_log_raw d.data_raw lba len o.io_res (u32 o.t);
        data_log = data_log d.data_log lba len o.io_res (u32 o.t);
      }

  -- The handling of an error or of incomplete data, up to the two early returns.
  unfoldable pub account_read : Disk H → ScanState → ReadOutcome → Verdict × Disk H × ScanState
  account_read disk state o =
      if has_error o.io_res
      then (let d = record disk { num_errors = u64 (disk.num_errors + 1) } in
          if is_fatal o.io_res.error
          then (bail_out, d, state)
          else if is_unknown o.io_res.error || (not (o.errno == eio) && not (o.errno == 0))
          then (
            if ltb 500 state.num_unknown_errors then bail_out else go_on,
            d,
            record state { num_unknown_errors = u32 (state.num_unknown_errors + 1) },
          )
          else (go_on, d, state))
      else (go_on, disk, record state { num_unknown_errors = 0 })

-- A read into the buffer and a write from it: `disk_dev_read` and `disk_dev_write` clear as many bytes
-- of the buffer as they are asked for.
module _ {W : Type 0} (platform : Platform W) where
  unfoldable pub read_into : W → ℕ → ℕ → List ℕ → Option (ReadOutcome × W)
  read_into w offset size buffer =
      if ltb (length buffer) size then none else some (platform.read w offset size buffer)

  unfoldable pub write_from : W → ℕ → ℕ → List ℕ → Option (List ℕ × W)
  write_from w offset size buffer =
      if ltb (length buffer) size then none else some (platform.write w offset size buffer)

module _ {W H : Type 0} (platform : Platform W) (hist : Histogram H) where
  -- The loop that overwrites what cannot be read, with fuel.
  unfoldable pub zero_uncorrected : ℕ → W → ℕ → ℕ → ℕ → ℕ → List ℕ → Option (List ℕ × W)
  zero_uncorrected zero w offset data_size fix_offset fix_size buffer = none
  zero_uncorrected (suc fuel) w offset data_size fix_offset fix_size buffer =
      elim (slt32 data_size (u32 (fix_offset + fix_size))) [
        | true ↦ some (buffer, w)
        | false ↦
            let at = u64 (offset + fix_offset) in
            let next = u32 (fix_offset + fix_size) in
            read_into platform w at fix_size buffer >>= λ (o, w1).
            if is_uncorrected o.io_res.error
            then (write_from platform w1 at fix_size (zero_bytes o.buffer 0 fix_size) >>= λ (b, w2).
                zero_uncorrected fuel w2 offset data_size next fix_size b)
            else zero_uncorrected fuel w1 offset data_size next fix_size o.buffer
      ]

  -- The repair of a slow or failed region.
  unfoldable pub fix_region : Disk H → W → ℕ → ℕ → ReadOutcome → Option (List ℕ × W)
  fix_region disk w offset data_size o =
      if disk.fix && (ltb 3000 (o.t / 1000000) || has_error o.io_res)
      then (if is_uncorrected o.io_res.error
          then zero_uncorrected (data_size + 1) w offset data_size 0
              (if slt32 data_size 4096 then data_size else 4096) o.buffer
          else write_from platform w offset data_size o.buffer)
      else some (o.buffer, w)

  -- The part of `disk_scan_part` after the handling of errors.
  unfoldable pub finish_part :
      Verdict
      → Disk H
      → ScanState
      → W
      → ℕ
      → ℕ
      → ReadOutcome
      → Option (Bool × Disk H × ScanState × W)
  finish_part bail_out disk state w offset data_size o = some (false, disk, state, w)
  finish_part go_on disk state w offset data_size o = do
    (d2, s2) ←
        latency_bucket_add
          (record disk { histogram = hist.record_value disk.histogram (o.t / 1000) })
          (o.t / 1000000) state
    (buffer, w2) ← fix_region d2 w offset data_size o
    some (true, d2, record s2 { buffer = buffer }, w2)

  unfoldable pub disk_scan_part :
      Disk H → ScanState → W → ℕ → ℕ → Option (Bool × Disk H × ScanState × W)
  disk_scan_part disk state w offset data_size = do
    (o, w1) ← read_into platform w offset data_size state.buffer
    let (verdict, d1, s1) =
        account_read (log_read disk offset data_size o) (record state { buffer = o.buffer }) o
    finish_part verdict d1 s1 w1 offset data_size o
