-- ===== src/Median/Rank.antt =====
-- What a round of the selection of include/median.h knows of the order of the array.
use native.Mathlib.Decide.{dec_lt}
use diskscan.Base.{ℕ, ◌+◌, ◌≤◌, ◌<◌, ◌≡◌, List, ltb, inl, inr, ◌⊎◌, arith, if◌then◌else◌}
use diskscan.Median.Bounds.{elem}
use diskscan.Median.Sorts.{Sorts}

-- Among the first n elements, none before the place k is above the one there, and none after it below.
abbrev pub Ranked : ℕ → ℕ → List ℕ → Type 0
Ranked n k a =
    ((p : ℕ) → p < k → elem a p ≤ elem a k) × ((p : ℕ) → k ≤ p → p < n → elem a k ≤ elem a p)

-- The elements below l, those from m1 on, and those between m1 and l where these have passed each
-- other, are in their parts of the order; k is in the part that is left, or in that between.
pub record Ordered (n k : ℕ) (a : List ℕ) (l m1 : ℕ) : Type 0 where
  pub within : m1 ≤ n
  pub low : (p q : ℕ) → p < l → l ≤ q → q < n → elem a p ≤ elem a q
  pub high : (p q : ℕ) → p < m1 → m1 ≤ q → q < n → elem a p ≤ elem a q
  pub mid : (p q : ℕ) → m1 ≤ p → p < l → m1 ≤ q → q < l → elem a p ≤ elem a q
  pub place : ((l ≤ k) × (k < m1)) ⊎ ((m1 ≤ k) × (k < l))

pub whole-Ordered : (n k : ℕ) (a : List ℕ) → k < n → Ordered n k a 0 n
whole-Ordered n k a h = record {
  within = omega arith;
  low = λ p q lp lq hq. absurd (omega arith);
  high = λ p q lp lq hq. absurd (omega arith);
  mid = λ p q mp lp mq lq. absurd (omega arith);
  place = inl (omega arith, h);
}

pub Ordered-Ranked :
    (n k : ℕ) (a : List ℕ) (l m1 : ℕ) → Ordered n k a l m1 → k < n → m1 ≤ l + 1 → Ranked n k a
Ordered-Ranked n k a l m1 o h stop = elim o.place [
  | inl (lo, hi) ↦ (
    λ p b. o.low p k (omega arith) lo h,
    λ p b c. elim (dec_lt k p) [
      | yes after ↦ o.high k p hi (omega arith) c
      | no last ↦ let e : p ≡ k = omega arith in rw e (omega arith)
    ],
  )
  | inr (lo, hi) ↦ (
    λ p b. elim (dec_lt p m1) [
      | yes below ↦ o.high p k below lo h
      | no above ↦ o.mid p k (omega arith) (omega arith) lo hi
    ],
    λ p b c. elim (dec_lt p l) [
      | yes below ↦ o.mid k p lo hi (omega arith) below
      | no above ↦ o.low k p hi (omega arith) c
    ],
  )
]

module _ {n k : ℕ} {a b : List ℕ} {l m1 x i j1 : ℕ} (o : Ordered n k a l m1)
    (s : Sorts a b x l m1 i j1) where
  sorted-low : (p q : ℕ) → p < l → l ≤ q → q < n → elem b p ≤ elem b q
  sorted-low p q lp lq hq = elim (dec_lt q m1) [
    | yes inside ↦
        let (m, ml, mh, e) = s.moves q lq inside in
        rw (s.before p lp, e) (o.low p m lp ml (omega (arith, o.within)))
    | no outside ↦ rw (s.before p lp, s.after q (omega arith)) (o.low p q lp lq hq)
  ]

  sorted-high : (p q : ℕ) → p < m1 → m1 ≤ q → q < n → elem b p ≤ elem b q
  sorted-high p q lp lq hq = elim (dec_lt p l) [
    | yes outside ↦ rw (s.before p outside, s.after q lq) (o.high p q lp lq hq)
    | no inside ↦
        let (m, ml, mh, e) = s.moves p (omega arith) lp in
        rw (e, s.after q lq) (o.high m q mh lq hq)
  ]

  -- Two places that the partition separates.
  sorted-split : (p q : ℕ) → p < i → j1 ≤ q → q < n → l ≤ q → p < m1 → elem b p ≤ elem b q
  sorted-split p q lp lq hq from to = elim (dec_lt p l) [
    | yes before ↦ sorted-low p q before from hq
    | no behind ↦ elim (dec_lt q m1) [
      | yes inside ↦
          let left = s.left p (omega arith) lp in let right = s.right q lq inside in omega arith
      | no after ↦ sorted-high p q to (omega arith) hq
    ]
  ]

  -- The partition of the part around k leaves the smaller part around k.
  pub partition-Ordered :
      j1 ≤ i
      → l ≤ k
      → k < m1
      → Ordered n k b (if ltb j1 (k + 1) then i else l) (if ltb k i then j1 else m1)
  partition-Ordered passed lo hi = record {
    within = ground (arith, o.within, s.within, s.above);
    low = λ p q lp lq hq. elim (dec_lt p l) [
      | yes h ↦ sorted-low p q h (ground (arith, s.within, s.above, passed)) hq
      | no h ↦
          sorted-split p q (ground arith) (ground (arith, passed)) hq
            (ground (arith, s.above, passed)) (ground (arith, s.within))
    ];
    high = λ p q lp lq hq. elim (dec_lt q m1) [
      | yes h ↦
          sorted-split p q (ground (arith, passed)) (ground arith) hq (ground (arith, s.above))
            (ground (arith, s.within, passed))
      | no h ↦ sorted-high p q (ground (arith, s.within, passed)) (omega arith) hq
    ];
    mid = λ p q mp lp mq lq.
        sorted-split p q (ground (arith, s.within)) (ground (arith, s.above))
          (ground (arith, s.within, o.within)) (ground (arith, s.above)) (ground (arith, s.within));
    place = placed;
  }
    where
      placed :
          let l' = if ltb j1 (k + 1) then i else l in
          let m1' = if ltb k i then j1 else m1 in ((l' ≤ k) × (k < m1')) ⊎ ((m1' ≤ k) × (k < l'))
      placed = ground arith
