-- ===== src/Scan/Order/Shuffle.antt =====
-- What `calc_scan_order_random` of lib/diskscan.c makes of the sequential plan.
use mathlib.Core.List.{Perm}
use mathlib.Core.List.Perm
use diskscan.Base.{
  ℕ, zero, suc, ◌+◌, ◌%◌, ◌≤◌, ◌<◌, ◌≡◌, ◌∙◌, List, set, length, length-set, Gives, gives,
  Gives-mono, Gives-value, set-set-perm, ◌==◌, arith, get_elem?-get_or, get_elem?, some,
  Gives-if_of, Option, ◌>>=◌, ◌≢◌,
}
use native.Mathlib.Nat.{mod-lt}
use diskscan.Scan.Order.{shuffle, calc_scan_order_seq, calc_scan_order_random, num_reads}
use diskscan.Scan.Order.Covers.{length-plan}

-- An exchange of two entries inside the array, followed by what is done with the result.
exchange_step :
    (order : List ℕ) {i j : ℕ} {P : List ℕ → Type 0} (k : List ℕ → Option (List ℕ))
    → i < length order
    → j < length order
    → i ≢ j
    → ((after : List ℕ) → length after ≡ length order → Perm after order → Gives P (k after))
    → Gives P (
        get_elem? order i >>= λ tmp.
        get_elem? order j >>= λ other. k (set (set order i other) j tmp))
exchange_step order {i} {j} k hi hj ne step =
    let at_i = get_elem?-get_or order i 0 hi in
    let at_j = get_elem?-get_or order j 0 hj in
    rw (at_i, at_j)
      (step (set (set order i _) j _) (length-set (set order i _) j _ ∙ length-set order i _)
        (set-set-perm order ne at_i at_j))

shuffle-perm :
    (rand : ℕ → ℕ) (len n i : ℕ) (order : List ℕ)
    → 0 < len
    → len ≤ length order
    → i + n ≤ length order
    → Gives (λ o. Perm o order) (shuffle rand len n i order)
unfolding shuffle
shuffle-perm rand len zero i order hl hlen hi = gives order (Perm.refl order)
shuffle-perm rand len (suc n) i order hl hlen hi =
    Gives-if_of (i == rand i % len)
      (λ e. shuffle-perm rand len n (i + 1) order hl hlen (omega arith))
      (λ e.
        exchange_step order (shuffle rand len n (i + 1)) (omega arith)
          (omega (arith, mod-lt (rand i) hl)) (ground (arith, e))
          (λ after size p.
            Gives-mono (shuffle-perm rand len n (i + 1) after hl (omega arith) (omega arith))
              (λ o q. Perm.trans q p)))

-- The random order is a rearrangement of the sequential one, whatever rand() gives: the shuffle
-- stays inside the array, and no read is lost or done twice. The end mark moves with the reads.
pub calc_scan_order_random-perm :
    (rand : ℕ → ℕ) (ss stride rs : ℕ)
    → (order : List ℕ) × (calc_scan_order_random rand ss stride rs ≡ some order)
      × Perm order (calc_scan_order_seq ss stride rs)
unfolding calc_scan_order_random num_reads
calc_scan_order_random-perm rand ss stride rs =
    let size = length-plan ss stride rs in
    Gives-value (
      shuffle-perm rand _ _ 0 (calc_scan_order_seq ss stride rs) (omega arith) (omega (arith, size))
        (omega (arith, size)))
