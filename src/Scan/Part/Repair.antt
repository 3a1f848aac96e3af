-- ===== src/Scan/Part/Repair.antt =====
-- When the repair of a region, in `disk_scan_part` of lib/diskscan.c, ends.
use diskscan.Base.{
  some, u64, [], ◌∷◌, refl, ◌∙◌, length, Gives, gives, Gives-step, Gives-mono, Gives-if_of, ℕ, zero,
  suc, ◌+◌, ◌/◌, ◌^◌, ◌≤◌, ◌<◌, ◌≡◌, Bool, true, false, ◌&&◌, ◌||◌, List, ltb, if◌then◌else◌, slt32,
  u32, arith, Bool-cases, inl, inr,
}
use diskscan.Cdb.{zero_bytes}
use diskscan.Scan.Types.{Disk, ReadOutcome, Platform, Histogram}
use diskscan.Scan.Part.{
  is_uncorrected, has_error, zero_uncorrected, fix_region, read_into, write_from,
}

length-zero_bytes : (n : ℕ) (xs : List ℕ) → length (zero_bytes xs 0 n) ≡ length xs
unfolding zero_bytes
length-zero_bytes zero [] = refl
length-zero_bytes zero (x ∷ xs) = refl
length-zero_bytes (suc n) [] = refl
length-zero_bytes (suc n) (x ∷ xs) = omega (arith, length-zero_bytes n xs)

module _ {W H : Type 0} (platform : Platform W) (hist : Histogram H) where
  -- A read of no bytes is not uncorrected.
  abbrev pub Quiet : Type 0
  Quiet =
      (w : W) (offset : ℕ) (buffer : List ℕ)
      → is_uncorrected (platform.read w offset 0 buffer).0.io_res.error ≡ false

  -- The platform leaves the buffer as long as it is.
  pub record InPlace : Type 0 where
    pub read :
        (w : W) (offset size : ℕ) (buffer : List ℕ)
        → size ≤ length buffer
        → length (platform.read w offset size buffer).0.buffer ≡ length buffer
    pub write :
        (w : W) (offset size : ℕ) (buffer : List ℕ)
        → size ≤ length buffer
        → length (platform.write w offset size buffer).0 ≡ length buffer

  pub read_into-eq :
      (w : W) (offset size : ℕ) (buffer : List ℕ)
      → size ≤ length buffer
      → read_into platform w offset size buffer ≡ some (platform.read w offset size buffer)
  unfolding read_into
  read_into-eq w offset size buffer h =
      let inside : ltb (length buffer) size ≡ false = ground (arith, h) in rw inside refl

  write_from-eq :
      (w : W) (offset size : ℕ) (buffer : List ℕ)
      → size ≤ length buffer
      → write_from platform w offset size buffer ≡ some (platform.write w offset size buffer)
  unfolding write_from
  write_from-eq w offset size buffer h =
      let inside : ltb (length buffer) size ≡ false = ground (arith, h) in rw inside refl

  module _ (in_place : InPlace) where
    write_from-Gives :
        (w : W) (offset size : ℕ) (buffer : List ℕ)
        → size ≤ length buffer
        → Gives (λ r. length r.0 ≡ length buffer) (write_from platform w offset size buffer)
    write_from-Gives w offset size buffer h =
        rw (write_from-eq w offset size buffer h) (gives _ (in_place.write w offset size buffer h))

    zero_uncorrected-Gives :
        (fuel : ℕ) (w : W) (offset size at step : ℕ) (buffer : List ℕ)
        → 0 < step
        → step ≤ length buffer
        → size + step < 2 ^ 31
        → at ≤ size
        → size < at + fuel
        → Gives
            (λ r. length r.0 ≡ length buffer)
            (zero_uncorrected platform hist fuel w offset size at step buffer)
    unfolding zero_uncorrected
    zero_uncorrected-Gives zero w offset size at step buffer p b h l f = absurd (omega arith)
    zero_uncorrected-Gives (suc fuel) w offset size at step buffer p b h l f =
        elim (Bool-cases (slt32 size (u32 (at + step)))) [
          | inl e ↦ rw (e, zero_uncorrected) (gives _ refl)
          | inr e ↦
              let next : u32 (at + step) ≡ at + step = omega arith in
              let inside : at + step ≤ size = ground (arith, e) in
              let filled = in_place.read w (u64 (offset + at)) step buffer b in
              let o = (platform.read w (u64 (offset + at)) step buffer).0 in
              let w1 = (platform.read w (u64 (offset + at)) step buffer).1 in
              let cleared = length-zero_bytes step o.buffer in
              rw (e, zero_uncorrected)
                (rw (next, read_into-eq w (u64 (offset + at)) step buffer b)
                  (Gives-if_of (is_uncorrected o.io_res.error)
                    (λ t.
                      Gives-step _
                        (write_from-Gives w1 _ step (zero_bytes o.buffer 0 step)
                          (omega (arith, b, filled, cleared)))
                        λ r q.
                          Gives-mono
                            (zero_uncorrected-Gives fuel r.1 offset size (at + step) step r.0 p
                              (omega (arith, b, filled, cleared, q)) h inside (omega arith))
                            λ r' q'. q' ∙ q ∙ cleared ∙ filled)
                    (λ t.
                      Gives-mono
                        (zero_uncorrected-Gives fuel w1 offset size (at + step) step o.buffer p
                          (omega (arith, b, filled)) h inside (omega arith))
                        λ r' q'. q' ∙ filled)))
        ]

    -- A loop of one round over no bytes, which a read of no bytes ends, has none to repair; where the
    -- region has bytes, its repair ends.
    fix_region-Gives :
        (d : Disk H) (w : W) (offset size : ℕ) (o : ReadOutcome)
        → size ≤ length o.buffer
        → size + 4096 < 2 ^ 31
        → (size ≡ 0 → is_uncorrected o.io_res.error ≡ false)
        → Gives (λ r. length r.0 ≡ length o.buffer) (fix_region platform hist d w offset size o)
    unfolding fix_region
    fix_region-Gives d w offset size o b h q =
        Gives-if_of (d.fix && (ltb 3000 (o.t / 1000000) || has_error o.io_res))
          (λ t.
            Gives-if_of (is_uncorrected o.io_res.error)
              (λ e.
                let some_bytes : 0 < size = ground (arith, e, q) in
                zero_uncorrected-Gives (size + 1) w offset size 0
                  (if slt32 size 4096 then size else 4096) o.buffer (ground (arith, some_bytes))
                  (ground (arith, b, h)) (ground arith) (omega arith) (omega arith))
              (λ e. write_from-Gives w offset size o.buffer b))
          (λ t. gives _ refl)

    pub fix_region-Fixable :
        (d : Disk H) (w : W) (offset size : ℕ) (o : ReadOutcome)
        → size ≤ length o.buffer
        → size + 4096 < 2 ^ 31
        → (d.fix ≡ true → size ≡ 0 → is_uncorrected o.io_res.error ≡ false)
        → Gives (λ r. length r.0 ≡ length o.buffer) (fix_region platform hist d w offset size o)
    fix_region-Fixable d w offset size o b h q = elim (Bool-cases d.fix) [
      | inl e ↦ fix_region-Gives d w offset size o b h (q e)
      | inr e ↦ unfold fix_region in rw e (gives _ refl)
    ]

  -- What a read of a region asks of its size, of the length of the buffer and, where the scan fixes, of
  -- the device.
  abbrev pub Fixable : Bool → ℕ → ℕ → Type 0
  Fixable fix len size = (fix ≡ true → Quiet) × (size + 4096 < 2 ^ 31) × (size ≤ len)
