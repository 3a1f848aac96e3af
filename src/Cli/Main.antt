-- ===== src/Cli/Main.antt =====
-- `diskscan_cli` of cli/cli.c: the options, the disk, its logs, the scan and the end. The scan is a
-- parameter with the arguments and results of `disk_scan`, and `fopen` says of a name whether the
-- file could be opened. `none` is an access outside an array, or the use of a log that is not open.
use diskscan.Base.{
  ℕ, Bool, true, false, not, ◌==◌, Option, some, none, List, [], if◌then◌else◌, ◌>>=◌,
}
use diskscan.Scan.Types.{Disk, ScanMode, LogEvent}
use diskscan.Disk.Open.{System, OpenDisk, disk_open, disk_close}
use diskscan.Cli.Options.{Number, Opt, Options, parse_args, default_options}

-- The log of a name: none without a name or where the file could not be opened.
unfoldable pub start_log : (List ℕ → Bool) → Option (List ℕ) → Option (List LogEvent)
start_log fopen none = none
start_log fopen (some name) = if fopen name then some [] else none

-- `data_log_raw_end` is called where a name was given, and writes to the file.
unfoldable pub raw_log_ends : Option (List ℕ) → Option (List LogEvent) → Bool
raw_log_ends none log = true
raw_log_ends (some name) none = false
raw_log_ends (some name) (some es) = true

module _ {K H : Type 0} (sys : System K H) (strtol : List ℕ → Number)
    (same_nocase : List ℕ → List ℕ → Bool) (fopen : List ℕ → Bool)
    (scan : Disk H → K → ScanMode → ℕ → Option (ℕ × Disk H × K)) where
  -- The part behind `disk_open`.
  unfoldable pub run_opened : Options → OpenDisk H → K → Option (ℕ × K)
  run_opened opts d k = do
    (ret, d1, k1) ←
        scan
          (record d.disk {
            data_raw = start_log fopen opts.data_log_raw_name;
            data_log = start_log fopen opts.data_log_name;
          })
          k opts.mode opts.scan_size
    if not (raw_log_ends opts.data_log_raw_name d1.data_raw) then none else (do
      (closed, k2) ← disk_close sys (record d { disk = d1 }) k1
      some (if ret == 0 then 0 else 1, k2))

  unfoldable pub run_options : Options → K → Option (ℕ × K)
  run_options opts k = do
    (ok, d, k1) ← disk_open sys k opts.disk_path opts.fix 70 opts.allowed_mount
    if not ok then some (1, k1) else run_opened opts d k1

  -- The return value and the kernel's state.
  unfoldable pub diskscan_cli : List Opt → List (List ℕ) → K → Option (ℕ × K)
  diskscan_cli args paths k = elim (parse_args strtol same_nocase args paths default_options) [
    | none ↦ some (1, k)
    | some opts ↦ run_options opts k
  ]
