-- ===== src/Scan/Stride/Frame.antt =====
-- What `disk_scan_latency_stride` of lib/diskscan.c leaves alone, and how it counts errors.
use diskscan.Base.{
  ℕ, refl, ◌||◌, ltb, List, [], ◌∷◌, u64, arith, Ensures, nothing, value, Ensures-mono, Ensures-if,
  Ensures-step, ◌+◌,
}
use diskscan.Scan.Types.{Disk, ScanState, Platform, Histogram}
use diskscan.Scan.Part.Account.{Keeps, Keeps-refl, Keeps-trans, part-Keeps}
use diskscan.Scan.Stride.{
  progress_calc, is_over, remainder, stride_round, stride_loop, disk_scan_latency_stride,
}

module _ {H : Type 0} where
  pub progress-Keeps : (d : Disk H) (s : ScanState) (add : ℕ) → Keeps d s d (progress_calc d s add)
  unfolding progress_calc
  progress-Keeps d s add = record {
    num_bytes = refl;
    sector_size = refl;
    fix = refl;
    graph_len = refl;
    stride = ground arith;
    bucket = ground arith;
    errors = λ e es p q. (es, p, q);
  }

  module _ {W : Type 0} (platform : Platform W) (hist : Histogram H) where
    pub round-Keeps :
        (d : Disk H) (s : ScanState) (w : W) (stride_end offset size : ℕ)
        → Ensures (λ r. Keeps d s r.1 r.2) (stride_round platform hist d s w stride_end offset size)
    unfolding stride_round
    round-Keeps d s w stride_end offset size =
        let k = progress-Keeps d s size in
        Ensures-if
          (ltb d.num_bytes offset || ltb d.num_bytes (u64 (offset + remainder stride_end offset)))
          (value _ k)
          (Ensures-mono (part-Keeps platform hist d _ w offset _) λ r l. Keeps-trans k l)

    loop-Keeps :
        (d : Disk H) (s : ScanState) (w : W) (stride_end base size : ℕ) (order : List ℕ)
        → Ensures
            (λ r. Keeps d s r.1 r.2)
            (stride_loop platform hist d s w stride_end base size order)
    unfolding stride_loop
    loop-Keeps d s w stride_end base size [] = nothing
    loop-Keeps d s w stride_end base size (o ∷ rest) =
        Ensures-if (is_over d o) (value _ (Keeps-refl d s)) (
          Ensures-step _ (round-Keeps d s w stride_end (u64 (base + o)) size) λ r k.
            Ensures-if r.0
              (Ensures-mono (loop-Keeps r.1 r.2 r.3 stride_end base _ rest) λ r' l. Keeps-trans k l)
              (value _ k))

    -- A stride keeps the geometry, and counts an error exactly where it logs one.
    pub stride-Keeps :
        (d : Disk H) (s : ScanState) (w : W) (base size : ℕ) (order : List ℕ)
        → Ensures
            (λ r. Keeps d s r.1 r.2)
            (disk_scan_latency_stride platform hist d s w base size order)
    unfolding disk_scan_latency_stride
    stride-Keeps d s w base size order = loop-Keeps d s w _ base size order
