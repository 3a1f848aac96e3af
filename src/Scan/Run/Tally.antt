-- ===== src/Scan/Run/Tally.antt =====
-- The errors that `disk_scan` of lib/diskscan.c counts are those that it logs.
use diskscan.Base.{
  ℕ, zero, suc, ◌+◌, ◌≡◌, ◌&&◌, List, some, ltb, u64, arith, get_elem?, Ensures, nothing, value,
  Ensures-bind, Ensures-step, Ensures-if,
}
use diskscan.Scan.Types.{Disk, ScanState, Platform, Histogram, LogEvent}
use diskscan.Median.{median}
use diskscan.Scan.Buckets.{latency_bucket_prepare, latency_bucket_finish}
use diskscan.Scan.Stride.{progress_calc}
use diskscan.Scan.Stride.Frame.{stride-Keeps}
use diskscan.Scan.Part.{disk_scan_stop}
use diskscan.Scan.Part.Account.{count_bad}
use diskscan.Scan.Run.{run_monitor, scan_stride, scan_loop}

module _ {H : Type 0} where
  -- The errors of a disk are those of its open raw log, and e more.
  abbrev pub Tallied : ℕ → Disk H → Type 0
  Tallied e d =
      (es : List LogEvent) × (d.data_raw ≡ some es) × (d.num_errors ≡ u64 (e + count_bad es))

  module _ {W : Type 0} (platform : Platform W) (hist : Histogram H) (e : ℕ) where
    prepare-Tallied :
        (d : Disk H) (s : ScanState) (offset : ℕ)
        → Tallied e d
        → Ensures (λ r. Tallied e r.0) (latency_bucket_prepare d s offset)
    unfolding latency_bucket_prepare
    prepare-Tallied d s offset t =
        Ensures-bind (get_elem? d.latency_graph s.latency_bucket) _ λ l. value _ t

    finish-Tallied :
        (d : Disk H) (s : ScanState) (offset : ℕ)
        → Tallied e d
        → Ensures (λ r. Tallied e r.0) (latency_bucket_finish d s offset)
    unfolding latency_bucket_finish
    finish-Tallied d s offset t =
        Ensures-bind (get_elem? d.latency_graph s.latency_bucket) _
          λ l. Ensures-bind (median s.latency s.latency_count) _ λ m. value _ t

    monitor-Tallied :
        (d : Disk H) (w : W) → Tallied e d → Tallied e (run_monitor platform hist d w).0
    unfolding run_monitor disk_scan_stop
    monitor-Tallied d w (es, p, q) = (es, ground arith, ground arith)

    stride-Tallied :
        (d : Disk H) (s : ScanState) (w : W) (offset size : ℕ) (order : List ℕ)
        → Tallied e d
        → Ensures (λ r. Tallied e r.1) (scan_stride platform hist d s w offset size order)
    unfolding scan_stride
    stride-Tallied d s w offset size order t =
        Ensures-step _ (prepare-Tallied d (progress_calc d s 0) offset t) λ a t1.
          Ensures-step _ (stride-Keeps platform hist a.0 a.1 w offset size order) λ r k.
            let t2 = k.errors e t1.0 t1.1 t1.2 in
            Ensures-if r.0
              (Ensures-step _ (finish-Tallied r.1 r.2 _ t2)
                λ b t3. value _ (monitor-Tallied b.0 r.3 t3))
              (value _ t2)

    pub loop-Tallied :
        (fuel : ℕ) (d : Disk H) (s : ScanState) (w : W) (offset size : ℕ) (order : List ℕ)
        → Tallied e d
        → Ensures (λ r. Tallied e r.0) (scan_loop platform hist fuel d s w offset size order)
    unfolding scan_loop
    loop-Tallied zero d s w offset size order t = nothing
    loop-Tallied (suc fuel) d s w offset size order t =
        Ensures-if (d.run && ltb offset d.num_bytes)
          (Ensures-step _ (stride-Tallied d s w offset size order t)
            λ r t1. Ensures-if r.0 (loop-Tallied fuel r.1 r.2 r.3 _ size order t1) (value _ t1))
          (value _ t)
