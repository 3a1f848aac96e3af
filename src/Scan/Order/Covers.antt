-- ===== src/Scan/Order/Covers.antt =====
-- Which bytes of a stride the plan of `calc_scan_order_seq` (lib/diskscan.c) reads.
use native.Mathlib.Nat.{mod-eq_of_lt, div-lt_iff_lt-mul, lt-div-mul-add, div-mul-le_self, mul_assoc}
use diskscan.Base.{
  ℕ, zero, suc, ◌+◌, ◌-◌, ◌*◌, ◌/◌, ◌%◌, ◌^◌, ◌≤◌, ◌<◌, ◌≡◌, refl, ◌∙◌, sym, ap, some, List, [],
  ◌∷◌, ◌++◌, length, length-append, get_elem?, u32, uint32_max, arith,
}
use diskscan.Scan.Order.{order_entries, calc_scan_order_seq, num_reads}

length-order_entries : (n i rs ss : ℕ) → length (order_entries n i rs ss) ≡ n
unfolding order_entries
length-order_entries zero i rs ss = refl
length-order_entries (suc n) i rs ss = ap suc (length-order_entries n (i + 1) rs ss)

pub length-plan :
    (ss stride rs : ℕ) → length (calc_scan_order_seq ss stride rs) ≡ num_reads stride rs
unfolding calc_scan_order_seq num_reads
length-plan ss stride rs =
    length-append (order_entries (stride / rs + 2 - 1) 0 rs ss) (uint32_max ∷ [])
    ∙ ap (λ t. t + 1) (length-order_entries (stride / rs + 2 - 1) 0 rs ss)
    ∙ omega arith

entry :
    (n i k rs ss : ℕ) (rest : List ℕ)
    → k < n
    → get_elem? (order_entries n i rs ss ++ rest) k ≡ some (u32 ((i + k) * rs * ss))
unfolding order_entries
entry zero i k rs ss rest h = absurd (omega arith)
entry (suc n) i zero rs ss rest h = ap (λ t. some (u32 (t * rs * ss))) (omega arith)
entry (suc n) i (suc k) rs ss rest h =
    entry n (i + 1) k rs ss rest (omega arith) ∙ ap (λ t. some (u32 (t * rs * ss))) (omega arith)

mark : (n i rs ss m : ℕ) → get_elem? (order_entries n i rs ss ++ m ∷ []) n ≡ some m
unfolding order_entries
mark zero i rs ss m = refl
mark (suc n) i rs ss m = mark n (i + 1) rs ss m

plan_reaches : (ss stride rs : ℕ) → 0 < ss → 0 < rs → stride * ss < (stride / rs + 1) * (rs * ss)
plan_reaches ss stride rs hs hr =
    let h : stride < (stride / rs + 1) * rs = omega (arith, lt-div-mul-add {a = stride} hr) in
    let e : (stride / rs + 1) * (rs * ss) ≡ (stride / rs + 1) * rs * ss =
      sym (mul_assoc (stride / rs + 1) rs ss) in
    rw e (mul_lt ss hs h)
  where
    mul_lt : {a b : ℕ} (c : ℕ) → 0 < c → a < b → a * c < b * c
    mul_lt c hc h = grind arith

-- In a stride whose plan stays below 4 GiB, each byte is in the read of one entry before the end
-- mark: reads of rs sectors, each at a multiple of their size.
pub order_covers :
    (ss stride rs x : ℕ)
    → 0 < ss
    → 0 < rs
    → stride * ss + rs * ss < 2 ^ 32
    → x < stride * ss
    → let k = x / (rs * ss) in
      (k + 1 < length (calc_scan_order_seq ss stride rs))
      × (get_elem? (calc_scan_order_seq ss stride rs) k ≡ some (k * rs * ss))
      × (k * rs * ss ≤ x)
      × (x < k * rs * ss + rs * ss)
unfolding calc_scan_order_seq num_reads
order_covers ss stride rs x hs hr hw hx = (
  rw (length-plan ss stride rs) (omega (arith, inside)),
  entry (stride / rs + 2 - 1) 0 k rs ss (uint32_max ∷ []) (omega (arith, inside)) ∙ ap some exact,
  omega (arith, below, flat),
  omega (arith, above, flat),
)
  where
    unit : ℕ
    unit = rs * ss

    k : ℕ
    k = x / unit

    positive : 0 < unit
    positive = grind arith

    below : k * unit ≤ x
    below = div-mul-le_self x unit

    above : x < k * unit + unit
    above = lt-div-mul-add positive

    flat : k * rs * ss ≡ k * unit
    flat = mul_assoc k rs ss

    reads_enough : stride * ss < (stride / rs + 1) * unit
    reads_enough = plan_reaches ss stride rs hs hr

    inside : k < stride / rs + 1
    inside = (div-lt_iff_lt-mul positive).1 (omega (arith, reads_enough))

    exact : u32 ((0 + k) * rs * ss) ≡ k * rs * ss
    exact = mod-eq_of_lt (omega (arith, below, flat)) ∙ ap (λ t. t * rs * ss) (omega arith)

-- The plan of a stride is its reads of rs sectors in their order, each offset cut to 32 bits, and the
-- end mark: so no read before the mark, the one with the number k in particular, reaches a byte of the
-- stride that is 4 GiB and one read past its start.
pub order_wraps :
    (ss stride rs k x : ℕ)
    → k ≤ stride / rs
    → 2 ^ 32 + rs * ss ≤ x
    → x < stride * ss
    → let plan = calc_scan_order_seq ss stride rs in
      (length plan ≡ stride / rs + 2)
      × (get_elem? plan k ≡ some (k * rs * ss % 2 ^ 32))
      × (get_elem? plan (stride / rs + 1) ≡ some uint32_max)
      × (k * rs * ss % 2 ^ 32 + rs * ss ≤ x)
unfolding calc_scan_order_seq num_reads
order_wraps ss stride rs k x h past below = (
  length-plan ss stride rs,
  entry (stride / rs + 2 - 1) 0 k rs ss (uint32_max ∷ []) (omega (arith, h))
      ∙ ap (λ t. some (u32 (t * rs * ss))) (omega arith),
  ap (λ n. get_elem? (order_entries (stride / rs + 2 - 1) 0 rs ss ++ uint32_max ∷ []) n)
        (omega arith)
      ∙ mark (stride / rs + 2 - 1) 0 rs ss uint32_max,
  omega (arith, past),
)
