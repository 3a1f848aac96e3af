-- ===== src/Median/Ends.antt =====
-- The end of the selection of include/median.h.
use diskscan.Base.{
  ℕ, zero, suc, ◌+◌, ◌-◌, ◌/◌, ◌%◌, ◌≤◌, ◌<◌, ◌≡◌, refl, ap, ◌∙◌, true, false, some, List, length,
  ltb, ltb→lt, Bool-cases, inl, inr, arith, if◌then◌else◌, get_elem?-get_or, ◌==◌,
}
use mathlib.Core.List.{Perm}
use mathlib.Core.List.Perm
use diskscan.Median.{partition, narrow, kth_smallest, median}
use diskscan.Median.Bounds.{elem}
use mathlib.Core.Path.{subst}
use diskscan.Median.Sorts.{Sorts, Sorts-trans}
use diskscan.Median.Rank.{Ranked, Ordered, whole-Ordered, Ordered-Ranked, partition-Ordered}
use diskscan.Median.Exchange.{Stops, exchange-Exchanged}

-- A partition: the indices have passed each other, and both have moved where one element stopped the
-- scans of the first round.
record Partitioned (fuel : ℕ) (a : List ℕ) (x i j1 u d : ℕ) : Type 0 where
  array : List ℕ
  i' : ℕ
  j1' : ℕ
  runs : partition fuel a x i j1 ≡ some (array, i', j1')
  same_length : length array ≡ length a
  rearranged : Perm array a
  sorts : Sorts a array x i j1 i' j1'
  passed : j1' ≤ i'
  from : i ≤ i'
  to : j1' ≤ j1
  both : u ≡ d → (i < i') × (j1' < j1)

partition-Partitioned :
    (fuel : ℕ) (a : List ℕ) (x i j1 u d : ℕ)
    → Stops a x i j1 u d
    → length a < i + fuel
    → Partitioned fuel a x i j1 u d
unfolding partition
partition-Partitioned zero a x i j1 u d s h = absurd (omega (arith, s.up_inside, s.up_from))
partition-Partitioned (suc fuel) a x i j1 u d s h =
    let r = exchange-Exchanged a x i j1 u d s in
    elim (Bool-cases (ltb r.i' r.j1')) [
      | inl t ↦
          let (moved, s') = r.again (ltb→lt r.i' r.j1' t) in
          let p =
            partition-Partitioned fuel r.array x r.i' r.j1' r.next_up r.next_down s'
              (omega (arith, r.same_length, moved)) in
          record {
            array = p.array;
            i' = p.i';
            j1' = p.j1';
            runs = rw r.runs (ground (arith, t, p.runs));
            same_length = p.same_length ∙ r.same_length;
            rearranged = Perm.trans p.rearranged r.rearranged;
            sorts = Sorts-trans r.from r.to r.sorts p.sorts;
            passed = p.passed;
            from = omega (arith, p.from, r.from);
            to = omega (arith, p.to, r.to);
            both = λ e. (omega (arith, p.from, moved), omega (arith, p.to, (r.both e).1));
          }
      | inr t ↦ record {
        array = r.array;
        i' = r.i';
        j1' = r.j1';
        runs = rw r.runs (ground (arith, t));
        same_length = r.same_length;
        rearranged = r.rearranged;
        sorts = r.sorts;
        passed = ground arith;
        from = r.from;
        to = r.to;
        both = r.both;
      }
    ]

here :
    (a : List ℕ) (k l m1 : ℕ)
    → k < length a
    → m1 ≤ length a
    → l ≤ k
    → k < m1
    → Stops a (elem a k) l m1 k k
here a k l m1 h b p q = record {
  inside = b;
  up_inside = h;
  up_from = p;
  up_high = omega arith;
  up_to = omega arith;
  down_from = omega arith;
  down_before = q;
  down_low = omega arith;
}

narrow-step :
    (fuel : ℕ) (a : List ℕ) (k l m1 : ℕ) {b : List ℕ} {i j1 : ℕ}
    → ltb (l + 1) m1 ≡ true
    → k < length a
    → partition (length a + 1) a (elem a k) l m1 ≡ some (b, i, j1)
    → narrow (suc fuel) a k l m1
      ≡ narrow fuel b k (if ltb j1 (k + 1) then i else l) (if ltb k i then j1 else m1)
unfolding narrow
narrow-step fuel a k l m1 t h e = rw (narrow, t, get_elem?-get_or a k 0 h, e) refl

narrow-stop :
    (fuel : ℕ) (a : List ℕ) (k l m1 : ℕ)
    → ltb (l + 1) m1 ≡ false
    → narrow (suc fuel) a k l m1 ≡ some a
unfolding narrow
narrow-stop fuel a k l m1 t = rw (narrow, t) refl

kth_smallest-narrow :
    (a : List ℕ) (n k : ℕ) {a' : List ℕ}
    → narrow (n + 1) a k 0 n ≡ some a'
    → k < length a'
    → kth_smallest a n k ≡ some (elem a' k, a')
unfolding kth_smallest
kth_smallest-narrow a n k {a'} e h = rw (e, get_elem?-get_or a' k 0 h) refl

narrow_ranks :
    (fuel n : ℕ) (a : List ℕ) (k l m1 : ℕ)
    → k < n
    → n ≤ length a
    → Ordered n k a l m1
    → 0 < fuel
    → m1 < l + fuel
    → (a' : List ℕ) × (narrow fuel a k l m1 ≡ some a')
      × (length a' ≡ length a)
      × Perm a' a
      × Ranked n k a'
narrow_ranks zero n a k l m1 h b o f g = absurd (omega arith)
narrow_ranks (suc fuel) n a k l m1 h b o f g = elim (Bool-cases (ltb (l + 1) m1)) [
  | inr t ↦ (
    a,
    narrow-stop fuel a k l m1 t,
    refl,
    Perm.refl a,
    Ordered-Ranked n k a l m1 o h (ground arith),
  )
  | inl t ↦
      let lt = ltb→lt (l + 1) m1 t in
      let (p, q) = inside_part n k a l m1 o lt in
      let r =
        partition-Partitioned (length a + 1) a (elem a k) l m1 k k
          (here a k l m1 (omega arith) (omega (arith, o.within)) p q) (omega arith) in
      let moved = r.both refl in
      let l' : ℕ = if ltb r.j1' (k + 1) then r.i' else l in
      let m1' : ℕ = if ltb k r.i' then r.j1' else m1 in
      let (a', e, c, same, ranked) =
        narrow_ranks fuel n r.array k l' m1' h (omega (arith, r.same_length))
          (partition-Ordered o r.sorts r.passed p q) (omega (arith, lt, g))
          (ground (arith, moved, r.passed, g)) in
      (
        a',
        rw (narrow-step fuel a k l m1 t (omega arith) r.runs) e,
        ◌∙◌ {a = length a'} c r.same_length,
        Perm.trans {l₁ = a'} same r.rearranged,
        ranked,
      )
]
  where
    inside_part :
        (n k : ℕ) (a : List ℕ) (l m1 : ℕ) → Ordered n k a l m1 → l + 1 < m1 → (l ≤ k) × (k < m1)
    inside_part n k a l m1 o lt = elim o.place [ inl h ↦ h | inr h ↦ absurd (omega (arith, h)) ]

-- On an array of at least n elements, n positive, the median ends, reads and writes only inside the
-- array, and leaves it rearranged: of the same length, with the same elements. The value returned is
-- the element that then stands at the index (n - 1) / 2, and of the first n elements those before
-- that index are not above it, and those after it not below.
pub median_ranks :
    (a : List ℕ) (n : ℕ)
    → 0 < n
    → n ≤ length a
    → (v : ℕ) × (a' : List ℕ) × (median a n ≡ some (v, a'))
      × (length a' ≡ length a)
      × Perm a' a
      × (v ≡ elem a' ((n - 1) / 2))
      × Ranked n ((n - 1) / 2) a'
unfolding median
median_ranks a n h b =
    let k : ℕ = if n % 2 == 1 then n / 2 else n / 2 - 1 in
    let rank : k ≡ (n - 1) / 2 = ground arith in
    let inside : k < n = ground arith in
    let (a', e, c, same, ranked) =
      narrow_ranks (n + 1) n a k 0 n inside b (whole-Ordered n k a inside) (omega arith)
        (omega arith) in
    let m = kth_smallest-narrow a n k e (omega (arith, inside, c)) in
    (
      elem a' k,
      a',
      rw (positive n h) m,
      c,
      same,
      ap (elem a') rank,
      subst (λ i. Ranked n i a') rank ranked,
    )
  where
    positive : (n : ℕ) → 0 < n → (n == 0) ≡ false
    positive n h = ground arith
