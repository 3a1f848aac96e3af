-- ===== src/Scan/Run/Empty.antt =====
-- What a plan that starts with its end mark does to `disk_scan` of lib/diskscan.c.
use diskscan.Base.{
  ℕ, zero, suc, ◌<◌, ◌≡◌, refl, true, ◌&&◌, some, none, List, ◌∷◌, ltb, uint32_max, get_elem?,
  arith, Ensures, nothing, value, Ensures-bind, Ensures-step, Fails, Fails-none,
}
use diskscan.Scan.Types.{Disk, ScanState, Platform, Histogram, ScanMode}
use diskscan.Scan.Order.{calc_latency_stride, calc_scan_order}
use diskscan.Scan.Buckets.{latency_bucket_prepare, latency_bucket_finish}
use diskscan.Scan.Stride.{progress_calc, stride_loop, disk_scan_latency_stride}
use diskscan.Scan.Run.{adjust_size, scan_stride, scan_loop, run_plan, disk_scan}
use diskscan.Median.{median}

no_median : (a : List ℕ) (n : ℕ) → n ≡ 0 → median a n ≡ none
unfolding median
no_median a n e = rw e refl

module _ {W H : Type 0} (platform : Platform W) (hist : Histogram H) (rest : List ℕ) where
  finish_empty :
      (d : Disk H) (s : ScanState) (x : ℕ)
      → s.latency_count ≡ 0
      → Fails (latency_bucket_finish d s x)
  unfolding latency_bucket_finish
  finish_empty d s x e =
      Ensures-bind (get_elem? d.latency_graph s.latency_bucket) _
        λ l. rw (no_median s.latency s.latency_count e) nothing

  stride_empty :
      (d : Disk H) (s : ScanState) (w : W) (offset size : ℕ)
      → disk_scan_latency_stride platform hist d s w offset size (uint32_max ∷ rest)
        ≡ some (true, d, s, w)
  unfolding disk_scan_latency_stride stride_loop
  stride_empty d s w offset size = ground arith

  prepare_empty :
      (d : Disk H) (s : ScanState) (offset : ℕ)
      → Ensures (λ r. r.1.latency_count ≡ 0) (latency_bucket_prepare d s offset)
  unfolding latency_bucket_prepare
  prepare_empty d s offset =
      Ensures-bind (get_elem? d.latency_graph s.latency_bucket) _ λ l. value _ refl

  scan_stride_empty :
      (d : Disk H) (s : ScanState) (w : W) (offset size : ℕ)
      → Fails (scan_stride platform hist d s w offset size (uint32_max ∷ rest))
  unfolding scan_stride
  scan_stride_empty d s w offset size =
      Ensures-step _ (prepare_empty d (progress_calc d s 0) offset) λ a p.
        rw (stride_empty a.0 a.1 w offset size)
          (Ensures-step _ (finish_empty a.0 a.1 _ p) λ r q. absurd q)

  loop_empty :
      (fuel : ℕ) (d : Disk H) (s : ScanState) (w : W) (offset size : ℕ)
      → (d.run && ltb offset d.num_bytes) ≡ true
      → Fails (scan_loop platform hist fuel d s w offset size (uint32_max ∷ rest))
  unfolding scan_loop
  loop_empty zero d s w offset size e = nothing
  loop_empty (suc fuel) d s w offset size e =
      rw e (Ensures-step _ (scan_stride_empty d s w offset size) λ r q. absurd q)

  -- A plan whose first entry is the end mark leaves the first stride of a scan without a sample, and
  -- its median is read before the array of samples: on a disk of a byte or more the scan leaves it.
  pub disk_scan_empty_plan :
      (rand : ℕ → ℕ) (buffer : List ℕ) (disk : Disk H) (w : W) (mode : ScanMode) (size : ℕ)
      → 0 < disk.num_bytes
      → calc_scan_order rand disk.sector_size mode
          (calc_latency_stride disk.num_bytes disk.sector_size disk.latency_graph_len)
          (adjust_size disk.sector_size size)
        ≡ some (some (uint32_max ∷ rest))
      → disk_scan platform hist rand (some buffer) disk w mode size ≡ none
  unfolding disk_scan run_plan
  disk_scan_empty_plan rand buffer disk w mode size h e =
      rw e (Fails-none _ (Ensures-step _ (loop_empty _ _ _ w 0 _ (ground arith)) λ r q. absurd q))
