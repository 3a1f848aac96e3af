-- ===== src/Median/Sorts.antt =====
-- How the inner loops of include/median.h order an array by the element x.
use native.Mathlib.Decide.{dec_lt}
use diskscan.Base.{ℕ, suc, ◌+◌, ◌≤◌, ◌<◌, ◌≡◌, refl, ◌∙◌, List, length, arith, ◌==◌, if◌then◌else◌}
use diskscan.Median.Bounds.{elem}
use diskscan.Median.Swapped.{swapped, elem-swapped}

-- From the array a to the array b, the elements from i to j1 are exchanged with each other only; those
-- below i' are then not above x, and those from j1' on not below it.
pub record Sorts (a b : List ℕ) (x i j1 i' j1' : ℕ) : Type 0 where
  pub above : i ≤ j1'
  pub within : i' ≤ j1
  pub left : (p : ℕ) → i ≤ p → p < i' → elem b p ≤ x
  pub right : (p : ℕ) → j1' ≤ p → p < j1 → x ≤ elem b p
  pub before : (p : ℕ) → p < i → elem b p ≡ elem a p
  pub after : (p : ℕ) → j1 ≤ p → elem b p ≡ elem a p
  pub moves : (p : ℕ) → i ≤ p → p < j1 → (q : ℕ) × (i ≤ q) × (q < j1) × (elem b p ≡ elem a q)

pub Sorts-trans :
    {a b c : List ℕ} {x i j1 i2 j2 i3 j3 : ℕ}
    → i ≤ i2
    → j2 ≤ j1
    → Sorts a b x i j1 i2 j2
    → Sorts b c x i2 j2 i3 j3
    → Sorts a c x i j1 i3 j3
Sorts-trans {i2} {j2} f t r s = record {
  above = omega (arith, s.above);
  within = omega (arith, s.within);
  left = λ p lo hi. elim (dec_lt p i2) [
    | yes h ↦ rw (s.before p h) (r.left p lo h)
    | no h ↦ s.left p (omega arith) hi
  ];
  right = λ p lo hi. elim (dec_lt p j2) [
    | yes h ↦ s.right p lo h
    | no h ↦ rw (s.after p (omega arith)) (r.right p (omega arith) hi)
  ];
  before = λ p h. s.before p (omega arith) ∙ r.before p h;
  after = λ p h. s.after p (omega arith) ∙ r.after p h;
  moves = λ p lo hi. elim (dec_lt p i2) [
    | yes h ↦ let (q, ql, qh, e) = r.moves p lo hi in (q, ql, qh, s.before p h ∙ e)
    | no h ↦ elim (dec_lt p j2) [
      | yes h' ↦
          let (m, ml, mh, e) = s.moves p (omega arith) h' in
          let (q, ql, qh, e') = r.moves m (omega arith) (omega arith) in (q, ql, qh, e ∙ e')
      | no h' ↦ let (q, ql, qh, e) = r.moves p lo hi in (q, ql, qh, s.after p (omega arith) ∙ e)
    ]
  ];
}

module _ (a : List ℕ) (x i j1 u d : ℕ) (from : i ≤ u) (to : d < j1)
    (rising : (p : ℕ) → i ≤ p → p < u → elem a p ≤ x)
    (falling : (p : ℕ) → d < p → p < j1 → x ≤ elem a p) where
  -- The scans stop at u and d, and exchange their elements.
  pub swapped-Sorts :
      u ≤ d → d < length a → x ≤ elem a u → elem a d ≤ x → Sorts a (swapped a u d) x i j1 (u + 1) d
  swapped-Sorts le inside high low =
      let at = λ (p : ℕ). elem-swapped a u d p (omega arith) inside in
      record {
        above = omega arith;
        within = omega arith;
        left = λ p lo hi. rw (at p) (ground (arith, rising p lo));
        right = λ p lo hi. rw (at p) (ground (arith, falling p));
        before = λ p h. rw (at p) (ground arith);
        after = λ p h. rw (at p) (ground arith);
        moves = λ p lo hi. (
          if p == d then u else if p == u then d else p,
          ground arith,
          ground arith,
          rw (at p) (ground arith),
        );
      }

  -- They have passed each other.
  pub passed-Sorts : d < u → i ≤ d + 1 → u ≤ j1 → Sorts a a x i j1 u (suc d)
  passed-Sorts lt lo hi = record {
    above = omega arith;
    within = hi;
    left = rising;
    right = λ p l h. falling p (omega arith) h;
    before = λ p h. refl;
    after = λ p h. refl;
    moves = λ p l h. (p, l, h, refl);
  }
