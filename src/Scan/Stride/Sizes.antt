-- ===== src/Scan/Stride/Sizes.antt =====
-- The sizes of the reads of a stride, `disk_scan_latency_stride` of lib/diskscan.c, where a plan
-- rises.
use diskscan.Base.{
  ℕ, ◌+◌, ◌^◌, ◌≤◌, ◌<◌, ◌≡◌, ◌≢◌, ◌⊎◌, inl, inr, Bool, false, ◌||◌, List, [], ◌∷◌, ltb, u64, sub64,
  uint32_max, arith,
}
use native.Mathlib.Decide.{dec_lt}
use diskscan.Scan.Stride.{remainder, cut_size}

-- The entries rise from lo on, and those before the end mark are up to U.
abbrev pub Rises : ℕ → ℕ → List ℕ → Type 0
Rises U lo [] = Unit {0}
Rises U lo (e ∷ rest) = (lo ≤ e) × (e ≢ uint32_max → e ≤ U) × Rises U e rest

-- The rest of a plan: the size of its reads is S at most, or it lies past the end of the disk.
abbrev pub Sized : ℕ → ℕ → ℕ → ℕ → ℕ → List ℕ → Type 0
Sized nb base U S size order = (lo : ℕ) × Rises U lo order × ((size ≤ S) ⊎ (nb < base + lo))

-- The offset is not read.
abbrev pub skips : ℕ → ℕ → ℕ → Bool
skips nb se offset = ltb nb offset || ltb nb (u64 (offset + remainder se offset))

cut_inside :
    (se offset size S : ℕ)
    → offset ≤ se
    → se < 2 ^ 63
    → size ≤ S
    → S + 4096 < 2 ^ 31
    → cut_size se offset size ≤ S
cut_inside se offset size S h k l m =
    let r : sub64 se offset + offset ≡ se = omega arith in ground (arith, r)

-- A stride of a disk with nb bytes, with U bytes between its first and its last read, of S bytes each
-- at most.
pub record Repairable (nb base U S se : ℕ) : Type 0 where
  pub inside : base < nb
  pub no_wrap : nb + U < 2 ^ 63
  pub small : S + 4096 < 2 ^ 31
  pub limit : (se ≡ base + U) × (se ≤ nb) ⊎ (se ≡ nb)

module _ (nb base U S se : ℕ) (r : Repairable nb base U S se) where
  pub Sized-next :
      (e : ℕ) (rest : List ℕ) (size : ℕ)
      → e ≢ uint32_max
      → Sized nb base U S size (e ∷ rest)
      → Sized nb base U S (cut_size se (u64 (base + e)) size) rest
        × (skips nb se (u64 (base + e)) ≡ false → cut_size se (u64 (base + e)) size ≤ S)
  Sized-next e rest size n (lo, (up, bound, more), state) =
      let inside = r.inside in
      let no_wrap = r.no_wrap in
      let limit = r.limit in
      let b : e ≤ U = bound n in
      let at : u64 (base + e) ≡ base + e = omega arith in
      elim (dec_lt nb (base + e)) [
        | yes past ↦ ((e, more, inr past), λ t. absurd (ground (arith, t, at, past)))
        | no near ↦
            let before : base + e ≤ se = ground (arith, limit) in
            let kept : size ≤ S = ground (arith, state) in
            let c : cut_size se (u64 (base + e)) size ≤ S =
              rw at (cut_inside se (base + e) size S before (ground (arith, limit)) kept r.small) in
            ((e, more, inl c), λ t. c)
      ]
