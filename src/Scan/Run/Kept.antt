-- ===== src/Scan/Run/Kept.antt =====
-- What the calls of the platform keep, a scan of lib/diskscan.c keeps.
use diskscan.Base.{
  length, ◌≤◌, arith, Ensures-if_of, ℕ, zero, suc, ◌+◌, ◌/◌, ◌&&◌, ◌||◌, Option, none, some, List,
  [], ◌∷◌, inl, inr, u32, u64, ltb, slt32, to_int, Bool-cases, Ensures, nothing, value,
  Ensures-bind, Ensures-step, Ensures-if,
}
use diskscan.Scan.Types.{Disk, ScanState, ReadOutcome, Platform, Histogram, ScanMode}
use diskscan.Scan.Order.{calc_scan_order}
use diskscan.Scan.Buckets.{latency_bucket_prepare, latency_bucket_add, latency_bucket_finish}
use diskscan.Scan.Part.{
  read_into, write_from, is_uncorrected, has_error, zero_uncorrected, fix_region, finish_part,
  disk_scan_part, bail_out, go_on, Verdict,
}
use diskscan.Scan.Stride.{
  progress_calc, stride_round, stride_loop, disk_scan_latency_stride, is_over, remainder, cut_size,
}
use diskscan.Scan.Run.{run_monitor, scan_stride, scan_loop, run_plan, disk_scan}

-- The calls of the platform keep what I says of its state.
pub record Keeping {W : Type 0} (platform : Platform W) (I : W → Type 0) : Type 0 where
  pub read :
      (w : W) (offset size : ℕ) (buffer : List ℕ)
      → size ≤ length buffer
      → I w
      → I (platform.read w offset size buffer).1
  pub write :
      (w : W) (offset size : ℕ) (buffer : List ℕ)
      → size ≤ length buffer
      → I w
      → I (platform.write w offset size buffer).1
  pub monitor : (w : W) → I w → I (platform.monitor w).1

module _ {W H : Type 0} (platform : Platform W) (hist : Histogram H) (I : W → Type 0)
    (keeps : Keeping platform I) where
  read_into-Kept :
      (w : W) (offset size : ℕ) (buffer : List ℕ)
      → I w
      → Ensures (λ r. I r.1) (read_into platform w offset size buffer)
  unfolding read_into
  read_into-Kept w offset size buffer h =
      Ensures-if_of (ltb (length buffer) size) (λ e. nothing)
        (λ e. value _ (keeps.read w offset size buffer (ground (arith, e)) h))

  write_from-Kept :
      (w : W) (offset size : ℕ) (buffer : List ℕ)
      → I w
      → Ensures (λ r. I r.1) (write_from platform w offset size buffer)
  unfolding write_from
  write_from-Kept w offset size buffer h =
      Ensures-if_of (ltb (length buffer) size) (λ e. nothing)
        (λ e. value _ (keeps.write w offset size buffer (ground (arith, e)) h))

  zero_uncorrected-Kept :
      (fuel : ℕ) (w : W) (offset size at step : ℕ) (buffer : List ℕ)
      → I w
      → Ensures (λ r. I r.1) (zero_uncorrected platform hist fuel w offset size at step buffer)
  unfolding zero_uncorrected
  zero_uncorrected-Kept zero w offset size at step buffer h = nothing
  zero_uncorrected-Kept (suc fuel) w offset size at step buffer h =
      elim (Bool-cases (slt32 size (u32 (at + step)))) [
        | inl e ↦ rw (e, zero_uncorrected) (value _ h)
        | inr e ↦
            rw (e, zero_uncorrected)
              (Ensures-step _ (read_into-Kept w (u64 (offset + at)) step buffer h) λ r k.
                Ensures-if (is_uncorrected r.0.io_res.error)
                  (Ensures-step _ (write_from-Kept r.1 _ step _ k)
                    λ b k'. zero_uncorrected-Kept fuel b.1 offset size _ step b.0 k')
                  (zero_uncorrected-Kept fuel r.1 offset size _ step _ k))
      ]

  fix_region-Kept :
      (d : Disk H) (w : W) (offset size : ℕ) (o : ReadOutcome)
      → I w
      → Ensures (λ r. I r.1) (fix_region platform hist d w offset size o)
  unfolding fix_region
  fix_region-Kept d w offset size o h =
      Ensures-if (d.fix && (ltb 3000 (o.t / 1000000) || has_error o.io_res))
        (Ensures-if (is_uncorrected o.io_res.error)
          (zero_uncorrected-Kept (size + 1) w offset size 0 _ o.buffer h)
          (write_from-Kept w offset size o.buffer h))
        (value _ h)

  finish-Kept :
      (v : Verdict) (d : Disk H) (s : ScanState) (w : W) (offset size : ℕ) (o : ReadOutcome)
      → I w
      → Ensures (λ r. I r.3) (finish_part platform hist v d s w offset size o)
  unfolding finish_part
  finish-Kept bail_out d s w offset size o h = value _ h
  finish-Kept go_on d s w offset size o h =
      Ensures-bind (latency_bucket_add _ (o.t / 1000000) s) _
        λ a. Ensures-step _ (fix_region-Kept a.0 w offset size o h) λ b k. value _ k

  part-Kept :
      (d : Disk H) (s : ScanState) (w : W) (offset size : ℕ)
      → I w
      → Ensures (λ r. I r.3) (disk_scan_part platform hist d s w offset size)
  unfolding disk_scan_part
  part-Kept d s w offset size h =
      Ensures-step _ (read_into-Kept w offset size s.buffer h)
        λ r k. finish-Kept _ _ _ _ offset size _ k

  round-Kept :
      (d : Disk H) (s : ScanState) (w : W) (stop offset size : ℕ)
      → I w
      → Ensures (λ r. I r.3) (stride_round platform hist d s w stop offset size)
  unfolding stride_round
  round-Kept d s w stop offset size h =
      Ensures-if (ltb d.num_bytes offset || ltb d.num_bytes (u64 (offset + remainder stop offset)))
        (value _ h)
        (part-Kept d (progress_calc d s size) w offset (to_int (cut_size stop offset size)) h)

  stride_loop-Kept :
      (d : Disk H) (s : ScanState) (w : W) (stop base size : ℕ) (order : List ℕ)
      → I w
      → Ensures (λ r. I r.3) (stride_loop platform hist d s w stop base size order)
  unfolding stride_loop
  stride_loop-Kept d s w stop base size [] h = nothing
  stride_loop-Kept d s w stop base size (entry ∷ rest) h =
      Ensures-if (is_over d entry) (value _ h) (
        Ensures-step _ (round-Kept d s w stop (u64 (base + entry)) size h)
          λ r k. Ensures-if r.0 (stride_loop-Kept r.1 r.2 r.3 stop base _ rest k) (value _ k))

  scan_stride-Kept :
      (d : Disk H) (s : ScanState) (w : W) (offset size : ℕ) (order : List ℕ)
      → I w
      → Ensures (λ r. I r.3) (scan_stride platform hist d s w offset size order)
  unfolding scan_stride disk_scan_latency_stride run_monitor
  scan_stride-Kept d s w offset size order h =
      Ensures-bind (latency_bucket_prepare d (progress_calc d s 0) offset) _ λ a.
        Ensures-step _ (stride_loop-Kept a.0 a.1 w _ offset size order h) λ r k.
          Ensures-if r.0
            (Ensures-bind (latency_bucket_finish r.1 r.2 _) _ λ b. value _ (keeps.monitor r.3 k))
            (value _ k)

  scan_loop-Kept :
      (fuel : ℕ) (d : Disk H) (s : ScanState) (w : W) (offset size : ℕ) (order : List ℕ)
      → I w
      → Ensures (λ r. I r.2) (scan_loop platform hist fuel d s w offset size order)
  unfolding scan_loop
  scan_loop-Kept zero d s w offset size order h = nothing
  scan_loop-Kept (suc fuel) d s w offset size order h =
      Ensures-if (d.run && ltb offset d.num_bytes)
        (Ensures-step _ (scan_stride-Kept d s w offset size order h)
          λ r k. Ensures-if r.0 (scan_loop-Kept fuel r.1 r.2 r.3 _ size order k) (value _ k))
        (value _ h)

  plan-Kept :
      (d : Disk H) (s : ScanState) (w : W) (size : ℕ) (plan : Option (List ℕ))
      → I w
      → Ensures (λ r. I r.2) (run_plan platform hist d s w size plan)
  unfolding run_plan
  plan-Kept d s w size none h = value _ h
  plan-Kept d s w size (some order) h =
      Ensures-step _ (scan_loop-Kept (d.latency_graph_len + 1) d s w 0 size order h)
        λ r k. value _ k

  pub disk_scan-Kept :
      (rand : ℕ → ℕ) (buffer : Option (List ℕ)) (disk : Disk H) (w : W) (mode : ScanMode) (size : ℕ)
      → I w
      → Ensures (λ r. I r.2) (disk_scan platform hist rand buffer disk w mode size)
  unfolding disk_scan
  disk_scan-Kept rand none disk w mode size h = value _ h
  disk_scan-Kept rand (some pages) disk w mode size h =
      Ensures-bind (calc_scan_order _ _ _ _ _) _ λ plan. plan-Kept _ _ w _ plan h
