-- ===== src/Scan/Run/Verdict.antt =====
-- The conclusion of `disk_scan` (lib/diskscan.c) against the raw log that it wrote.
use diskscan.Base.{
  true, ℕ, ◌+◌, ◌^◌, ◌≤◌, ◌<◌, ◌≡◌, ◌⊎◌, ◌↔◌, false, List, Option, none, some, length,
}
use diskscan.Scan.Types.{
  Disk, ScanState, Platform, Histogram, LogEvent, ScanMode, scan_problem, aborted, passed,
  failed_io_errors,
}
use diskscan.Scan.Order.{calc_latency_stride, calc_scan_order}
use diskscan.Scan.Part.Account.{count_bad}
use diskscan.Scan.Run.{adjust_size, new_state, scan_loop}

module _ {H : Type 0} where
  -- What a conclusion says of the errors that are logged and of the latencies.
  abbrev pub Judged : Histogram H → List LogEvent → Disk H → Type 0
  Judged hist es d =
      ((d.conclusion ≡ failed_io_errors) ↔ (0 < count_bad es))
      × ((d.conclusion ≡ passed) ↔ (
          (count_bad es ≡ 0)
          × (hist.max_value d.histogram ≤ 10_000_000)
          × (hist.value_at_percentile d.histogram 9999 ≤ 8_000_000)))

  -- How a scan may end: with a problem before the first read; with the disk that the loop over the
  -- strides has left: aborted if its flag to run is cleared, judged if it is set.
  abbrev Ended : (Disk H → Type 0) → Histogram H → ℕ → Disk H → Type 0
  Ended Left hist ret d =
      (d.run ≡ false)
      × (((ret ≡ 1) × (d.conclusion ≡ scan_problem))
          ⊎ ((ret ≡ 0)
              × (left : Disk H) × Left left
              × (((left.run ≡ false) × (d.conclusion ≡ aborted))
                  ⊎ ((left.run ≡ true)
                      × (es : List LogEvent) × (d.data_raw ≡ some es)
                      × (length es < 2 ^ 64 → Judged hist es d)))))

  -- The same for a log that is known and short enough.
  abbrev pub Concluded : (Disk H → Type 0) → Histogram H → List LogEvent → ℕ → Disk H → Type 0
  Concluded Left hist es ret d =
      (d.run ≡ false)
      × (((ret ≡ 1) × (d.conclusion ≡ scan_problem))
          ⊎ ((ret ≡ 0)
              × (left : Disk H) × Left left
              × (((left.run ≡ false) × (d.conclusion ≡ aborted))
                  ⊎ ((left.run ≡ true) × Judged hist es d))))

  module _ {W : Type 0} (platform : Platform W) (hist : Histogram H) where
    -- What the loop over the strides leaves of a disk and a state, for the plan.
    abbrev pub LeftOf : Option (List ℕ) → Disk H → ScanState → W → ℕ → Disk H → Type 0
    LeftOf plan d s w size left =
        (order : List ℕ) × (s' : ScanState) × (w' : W) × (plan ≡ some order)
        × (scan_loop platform hist (d.latency_graph_len + 1) d s w 0 size order
            ≡ some (left, s', w'))

    -- What the loop of `disk_scan` leaves.
    abbrev pub ScanLeft : (ℕ → ℕ) → Option (List ℕ) → Disk H → W → ScanMode → ℕ → Disk H → Type 0
    ScanLeft rand none disk w mode size left = ⊥
    ScanLeft rand (some pages) disk w mode size left =
        let stride = calc_latency_stride disk.num_bytes disk.sector_size disk.latency_graph_len in
        let read_size = adjust_size disk.sector_size size in
        (plan : Option (List ℕ)) × (calc_scan_order rand disk.sector_size mode stride read_size
          ≡ some plan)
        × LeftOf plan (record disk { run = true; conclusion = scan_problem })
            (new_state stride pages) w read_size left
