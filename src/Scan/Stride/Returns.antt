-- ===== src/Scan/Stride/Returns.antt =====
-- When `disk_scan_latency_stride` of lib/diskscan.c returns.
use diskscan.Base.{
  ℕ, zero, suc, ◌+◌, ◌≤◌, ◌≡◌, Bool, true, false, ◌||◌, List, ◌∷◌, length, ltb, u64, uint32_max,
  to_int, ◌==◌, arith, Gives, gives, Gives-step, Gives-if_of, Gives-mono,
}
use diskscan.Scan.Types.{Disk, ScanState, Platform, Histogram}
use diskscan.Scan.Part.Repair.{InPlace, Quiet, Fixable}
use diskscan.Scan.Stride.Sizes.{Repairable, Sized, Sized-next, skips}
use diskscan.Scan.Part.Returns.{Steady, Roomy, Steady-trans, part-Sampled}
use diskscan.Scan.Stride.{
  is_over, remainder, cut_size, stride_round, stride_loop, disk_scan_latency_stride, stride_limit,
}
use diskscan.Scan.Stride.Room.{Steady-none, progress-Steady, Roomy-after, Roomy-less}

-- A plan with n entries before an end mark.
pub data Planned : ℕ → List ℕ → Type 0 where
  stop : {rest : List ℕ} → Planned zero (uint32_max ∷ rest)
  more : {n : ℕ} {rest : List ℕ} (entry : ℕ) → Planned n rest → Planned (suc n) (entry ∷ rest)

module _ {H : Type 0} where
  module _ {W : Type 0} (platform : Platform W) (hist : Histogram H)
      (in_place : InPlace platform hist) where
    -- A stride that goes on has added from m to n samples.
    abbrev pub Strode : ℕ → ℕ → Disk H → ScanState → Bool × Disk H × ScanState × W → Type 0
    Strode m n d s r = r.0 ≡ true → (k : ℕ) × (m ≤ k) × (k ≤ n) × Steady d s r.1 r.2 k

    -- What a stride asks of its sizes and of the buffer's length and, where the scan fixes, of the
    -- device.
    abbrev pub Repairs : Bool → ℕ → ℕ → ℕ → ℕ → ℕ → ℕ → ℕ → List ℕ → Type 0
    Repairs fix len nb base U S se size order =
        (fix ≡ true → Quiet platform hist)
        × (S ≤ len)
        × Repairable nb base U S se
        × Sized nb base U S size order

    Repairs-now :
        (fix : Bool) (len nb base U S se size e : ℕ) (rest : List ℕ)
        → (e == uint32_max) ≡ false
        → Repairs fix len nb base U S se size (e ∷ rest)
        → skips nb se (u64 (base + e)) ≡ false
        → Fixable platform hist fix len (to_int (cut_size se (u64 (base + e)) size))
    Repairs-now fix len nb base U S se size e rest n (quiet, room, r, sized) skip =
        let c = (Sized-next nb base U S se r e rest size (ground (arith, n)) sized).1 skip in
        (quiet, omega (arith, c, r.small), omega (arith, c, r.small, room))

    Repairs-next :
        (fix : Bool) (len nb base U S se size e : ℕ) (rest : List ℕ)
        → (e == uint32_max) ≡ false
        → Repairs fix len nb base U S se size (e ∷ rest)
        → Repairs fix len nb base U S se (cut_size se (u64 (base + e)) size) rest
    Repairs-next fix len nb base U S se size e rest n (quiet, room, r, sized) =
        (quiet, room, r, (Sized-next nb base U S se r e rest size (ground (arith, n)) sized).0)

    read-Strode :
        (d : Disk H) (s : ScanState) (w : W) (stride_end offset size : ℕ)
        → Fixable platform hist d.fix (length s.buffer) (to_int (cut_size stride_end offset size))
        → Roomy d s 1
        → skips d.num_bytes stride_end offset ≡ false
        → Gives (Strode 1 1 d s) (stride_round platform hist d s w stride_end offset size)
    unfolding stride_round
    read-Strode d s w stride_end offset size f h e =
        let k = progress-Steady d s size in
        rw e (
          Gives-mono
            (part-Sampled platform hist in_place d _ w offset _ (rw k.buffer_size f)
              (Roomy-after {n = 1} k h))
            λ r g t. (1, omega arith, omega arith, Steady-trans k (g t)))

    round-Strode :
        (d : Disk H) (s : ScanState) (w : W) (stride_end offset size : ℕ)
        → (skips d.num_bytes stride_end offset ≡ false
            → Fixable platform hist d.fix
                (length s.buffer)
                (to_int (cut_size stride_end offset size)))
        → Roomy d s 1
        → Gives (Strode 0 1 d s) (stride_round platform hist d s w stride_end offset size)
    unfolding stride_round
    round-Strode d s w stride_end offset size f h =
        let k = progress-Steady d s size in
        Gives-if_of
          (ltb d.num_bytes offset || ltb d.num_bytes (u64 (offset + remainder stride_end offset)))
          (λ e. gives _ (λ t. (0, omega arith, omega arith, k)))
          (λ e.
            Gives-mono
              (part-Sampled platform hist in_place d _ w offset _ (rw k.buffer_size (f e))
                (Roomy-after {n = 1} k h))
              λ r g t. (1, omega arith, omega arith, Steady-trans k (g t)))

    Repairs-same :
        {d d' : Disk H} {s s' : ScanState} {k : ℕ} (base U S se size : ℕ) (order : List ℕ)
        → Steady d s d' s' k
        → Repairs d.fix (length s.buffer) d.num_bytes base U S se size order
        → Repairs d'.fix (length s'.buffer) d'.num_bytes base U S se size order
    Repairs-same base U S se size order st h = rw (st.fix, st.num_bytes, st.buffer_size) h

    loop-Strode :
        (n : ℕ) (d : Disk H) (s : ScanState) (w : W) (stride_end base size U S : ℕ) {order : List ℕ}
        → Planned n order
        → Repairs d.fix (length s.buffer) d.num_bytes base U S stride_end size order
        → Roomy d s n
        → Gives (Strode 0 n d s) (stride_loop platform hist d s w stride_end base size order)
    unfolding stride_loop
    loop-Strode zero d s w stride_end base size U S stop f h =
        Gives-if_of (is_over d uint32_max)
          (λ e. gives _ (λ t. (0, omega arith, omega arith, Steady-none d s)))
          (λ e. absurd (ground arith))
    loop-Strode (suc n) d s w stride_end base size U S (more entry p) f h =
        Gives-if_of (is_over d entry)
          (λ e. gives _ (λ t. (0, omega arith, omega arith, Steady-none d s)))
          (λ e.
            Gives-step _
              (round-Strode d s w stride_end (u64 (base + entry)) size
                (Repairs-now d.fix (length s.buffer) d.num_bytes base U S stride_end size entry _
                  (ground (arith, e)) f)
                (Roomy-less (omega arith) h))
              λ r g.
                Gives-if_of r.0
                  (λ t.
                    let (k, lo, hi, st) = g t in
                    Gives-mono
                      (loop-Strode n r.1 r.2 r.3 stride_end base _ U S p
                        (Repairs-same base U S stride_end _ _ st (
                          Repairs-next d.fix (length s.buffer) d.num_bytes base U S stride_end size
                            entry _ (ground (arith, e)) f))
                        (Roomy-after st (Roomy-less (omega arith) h)))
                      λ r' g' t'.
                        let (k', lo', hi', st') = g' t' in
                        (k + k', omega arith, omega arith, Steady-trans st st'))
                  (λ t. gives _ (λ t'. cc)))

    -- A stride returns whose plan has n entries after the first and before an end mark, with a
    -- bucket and room for as many samples, where the scan runs and the first entry is an offset
    -- inside the disk, and where the sizes, the buffer and the device are as Repairs asks; if it goes
    -- on, it has added one sample at least.
    pub stride-Strode :
        (n : ℕ) (d : Disk H) (s : ScanState) (w : W) (base size first U S : ℕ) {rest : List ℕ}
        → Planned n rest
        → Repairs d.fix
            (length s.buffer)
            d.num_bytes
            base
            U
            S
            (stride_limit d s base)
            size
            (first ∷ rest)
        → Roomy d s (suc n)
        → is_over d first ≡ false
        → skips d.num_bytes (stride_limit d s base) (u64 (base + first)) ≡ false
        → Gives
            (Strode 1 (suc n) d s)
            (disk_scan_latency_stride platform hist d s w base size (first ∷ rest))
    unfolding disk_scan_latency_stride stride_loop
    stride-Strode n d s w base size first U S p f h e i = rw e (
        Gives-step _
          (read-Strode d s w (stride_limit d s base) (u64 (base + first)) size
            (Repairs-now d.fix (length s.buffer) d.num_bytes base U S (stride_limit d s base) size
              first _ (ground (arith, e)) f i)
            (Roomy-less (omega arith) h) i)
          λ r g.
            Gives-if_of r.0
              (λ t.
                let (k, lo, hi, st) = g t in
                Gives-mono
                  (loop-Strode n r.1 r.2 r.3 (stride_limit d s base) base _ U S p
                    (Repairs-same base U S (stride_limit d s base) _ _ st (
                      Repairs-next d.fix (length s.buffer) d.num_bytes base U S
                        (stride_limit d s base) size first _ (ground (arith, e)) f))
                    (Roomy-after st (Roomy-less (omega arith) h)))
                  λ r' g' t'.
                    let (k', lo', hi', st') = g' t' in
                    (k + k', omega arith, omega arith, Steady-trans st st'))
              (λ t. gives _ (λ t'. cc)))
