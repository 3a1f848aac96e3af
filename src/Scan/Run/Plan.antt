-- ===== src/Scan/Run/Plan.antt =====
-- The sequential plan of a scan, `calc_scan_order_seq` of lib/diskscan.c, and the sizes of its strides.
use native.Mathlib.Nat.{le-div_iff_mul-le, lt-div-mul-add, div-mul-le_self, div-le_self}
use diskscan.Base.{
  ℕ, zero, suc, ◌+◌, ◌-◌, ◌*◌, ◌/◌, ◌^◌, ◌≤◌, ◌<◌, ◌≡◌, refl, ap, ap₂, ◌∙◌, [], ◌∷◌, ◌++◌,
  uint32_max, u32, widen, arith,
}
use diskscan.Scan.Order.{
  calc_latency_stride, calc_scan_order_seq, order_entries, num_reads, to_sectors,
}
use diskscan.Scan.Stride.Sizes.{Rises}
use diskscan.Scan.Stride.Returns.{Planned, stop, more}

mul_le : (a b c : ℕ) → a ≤ b → a * c ≤ b * c
mul_le a b c h = grind arith

pub entries-Planned : (n i rs ss : ℕ) → Planned n (order_entries n i rs ss ++ uint32_max ∷ [])
unfolding order_entries
entries-Planned zero i rs ss = stop
entries-Planned (suc n) i rs ss = more _ (entries-Planned n (i + 1) rs ss)

entries-Rises :
    (n i rs ss U lo : ℕ)
    → i * (rs * ss) + n * (rs * ss) ≤ U + rs * ss
    → U < 2 ^ 32
    → lo ≤ i * (rs * ss)
    → lo ≤ U
    → Rises U lo (order_entries n i rs ss ++ uint32_max ∷ [])
unfolding order_entries
entries-Rises zero i rs ss U lo r h k l = (omega arith, λ ne. absurd (ne refl), tt)
entries-Rises (suc n) i rs ss U lo r h k l =
    let inside : i * (rs * ss) ≤ U = omega (arith, r, count_one n (rs * ss)) in
    let at : u32 (i * rs * ss) ≡ i * (rs * ss) = rw (assoc i rs ss) (omega arith) in
    rw at (
      k,
      (λ ne. inside),
      entries-Rises n (i + 1) rs ss U (i * (rs * ss))
          (omega (arith, r, count_one n (rs * ss), next_one i (rs * ss))) h
          (omega (arith, next_one i (rs * ss))) inside,
    )
  where
    count_one : (n u : ℕ) → suc n * u ≡ n * u + u
    count_one n u = grind arith

    next_one : (n u : ℕ) → (n + 1) * u ≡ n * u + u
    next_one n u = grind arith

    assoc : (a b c : ℕ) → a * b * c ≡ a * (b * c)
    assoc a b c = grind arith

-- The entries of the sequential plan rise up to the bytes of a stride, where these fit 32 bits.
pub plan-Rises :
    (stride rs ss : ℕ)
    → stride * ss < 2 ^ 32
    → Rises (stride * ss) 0 (0 ∷ (order_entries (stride / rs) 1 rs ss ++ uint32_max ∷ []))
plan-Rises stride rs ss h = (
  omega arith,
  (λ ne. omega arith),
  entries-Rises (stride / rs) 1 rs ss (stride * ss) 0
      (omega (arith, within (stride / rs) (div-mul-le_self stride rs))) h (omega arith)
      (omega arith),
)
  where
    within : (q : ℕ) → q * rs ≤ stride → 1 * (rs * ss) + q * (rs * ss) ≤ stride * ss + rs * ss
    within q k = grind (arith, mul_le (q * rs) stride ss k)

first_entry :
    (n rs ss : ℕ)
    → order_entries (suc n) 0 rs ss ++ uint32_max ∷ []
      ≡ 0 ∷ (order_entries n 1 rs ss ++ uint32_max ∷ [])
unfolding order_entries
first_entry n rs ss =
    ap₂ (λ x i. x ∷ (order_entries n i rs ss ++ uint32_max ∷ [])) (omega arith) (omega arith)

-- The sequential plan starts with the offset 0.
pub plan_from_zero :
    (ss stride rs : ℕ)
    → calc_scan_order_seq ss stride rs
      ≡ 0 ∷ (order_entries (stride / rs) 1 rs ss ++ uint32_max ∷ [])
unfolding calc_scan_order_seq num_reads
plan_from_zero ss stride rs =
    ap (λ n. order_entries n 0 rs ss ++ uint32_max ∷ []) count ∙ first_entry (stride / rs) rs ss
  where
    count : stride / rs + 2 - 1 ≡ suc (stride / rs)
    count = omega arith

pub at_least : (a b c : ℕ) → 0 < b → c * b ≤ a → c ≤ a / b
at_least a b c h k = (le-div_iff_mul-le h).1 k

-- A plan of reads of two sectors or more has fewer reads than the stride has sectors.
pub few_reads : (stride rs : ℕ) → 2 ≤ rs → 2 ≤ stride → suc (stride / rs) ≤ stride
few_reads stride rs h k = ground (arith, less (stride / rs) rs h, div-mul-le_self stride rs)
  where
    less : (n rs : ℕ) → 2 ≤ rs → n * 2 ≤ n * rs
    less n rs h = grind arith

-- The strides of all the buckets cover the disk.
pub strides_cover : (nb ss G : ℕ) → 0 < ss → 0 < G → nb ≤ G * (calc_latency_stride nb ss G * ss)
unfolding calc_latency_stride
strides_cover nb ss G h k =
    let p : nb < nb / ss * ss + ss = lt-div-mul-add {a = nb} h in
    let q : nb / ss < nb / ss / G * G + G = lt-div-mul-add {a = nb / ss} k in
    go (nb / ss) (nb / ss / G) p q
  where
    go : (s t : ℕ) → nb < s * ss + ss → s < t * G + G → nb ≤ G * ((t + 1) * ss)
    go s t p q =
        let m : (s + 1) * ss ≤ (t * G + G) * ss = mul_le (s + 1) (t * G + G) ss (omega arith) in
        grind (arith, m)

pub one_more : (g u : ℕ) → 0 < u → g * u < 0 + (g + 1) * u
one_more g u h = grind arith

pub mul_pos : (a b : ℕ) → 2 ≤ a → 0 < b → 0 < a * b
mul_pos a b h k = grind arith

-- With a sector or more for each bucket, a stride has two sectors or more.
pub two_sectors : (nb ss G : ℕ) → 0 < ss → 0 < G → G * ss ≤ nb → 2 ≤ calc_latency_stride nb ss G
unfolding calc_latency_stride
two_sectors nb ss G h k l =
    omega (arith, at_least (nb / ss) G 1 k (omega (arith, at_least nb ss G h l)))

pub to_sectors-small : (size ss : ℕ) → size < 2 ^ 31 → to_sectors size ss ≡ size / ss
unfolding to_sectors
to_sectors-small size ss h =
    let less : size / ss ≤ size = div-le_self size ss in
    let same : widen size ≡ size = ground (arith, h) in rw same (ground (arith, h, less))
