-- ===== src/Median/Bounds.antt =====
-- Where the inner loops of include/median.h stop.
use diskscan.Base.{
  ℕ, zero, suc, ◌+◌, ◌≤◌, ◌<◌, ◌≡◌, some, List, length, ltb, ltb→lt, Bool-cases, inl, inr, arith,
  get_or, get_elem?-get_or,
}
use native.Mathlib.Decide.{dec_lt}
use diskscan.Median.{scan_up, scan_down}

abbrev pub elem : List ℕ → ℕ → ℕ
elem a i = get_or a i 0

-- Where the upward scan stops: at an element that is not below x, at u at the latest.
pub record Rise (fuel : ℕ) (a : List ℕ) (x i u : ℕ) : Type 0 where
  pub place : ℕ
  pub runs : scan_up fuel a x i ≡ some place
  pub from : i ≤ place
  pub to : place ≤ u
  pub high : x ≤ elem a place
  pub passed : (p : ℕ) → i ≤ p → p < place → elem a p ≤ x

pub scan_up_lem :
    (fuel : ℕ) (a : List ℕ) (x i u : ℕ)
    → u < length a
    → x ≤ elem a u
    → i ≤ u
    → u < i + fuel
    → Rise fuel a x i u
unfolding scan_up
scan_up_lem zero a x i u b h k f = absurd (omega arith)
scan_up_lem (suc fuel) a x i u b h k f =
    let e = get_elem?-get_or a i 0 (omega arith) in
    elim (Bool-cases (ltb (get_or a i 0) x)) [
      | inl t ↦
          let below : elem a i < x = ltb→lt (elem a i) x t in
          let r = scan_up_lem fuel a x (i + 1) u b h (grind arith) (omega arith) in
          record {
            place = r.place;
            runs = rw e (ground (arith, r.runs));
            from = omega (arith, r.from);
            to = r.to;
            high = r.high;
            passed = λ p lo hi. elim (dec_lt i p) [
              | yes after ↦ r.passed p (omega arith) hi
              | no last ↦ let e : p ≡ i = omega arith in rw e (omega arith)
            ];
          }
      | inr t ↦ record {
        place = i;
        runs = rw e (ground arith);
        from = omega arith;
        to = k;
        high = ground arith;
        passed = λ p lo hi. absurd (omega arith);
      }
    ]

-- Where the downward scan stops: one above an element that is not above x, the one at d at the
-- latest.
pub record Fall (a : List ℕ) (x j1 d : ℕ) : Type 0 where
  pub place : ℕ
  pub runs : scan_down a x j1 ≡ some (suc place)
  pub from : place < j1
  pub to : d ≤ place
  pub low : elem a place ≤ x
  pub passed : (p : ℕ) → place < p → p < j1 → x ≤ elem a p

pub scan_down_lem :
    (a : List ℕ) (x j1 d : ℕ) → j1 ≤ length a → elem a d ≤ x → d < j1 → Fall a x j1 d
unfolding scan_down
scan_down_lem a x zero d b h k = absurd (omega arith)
scan_down_lem a x (suc j) d b h k =
    let e = get_elem?-get_or a j 0 (omega arith) in
    elim (Bool-cases (ltb x (get_or a j 0))) [
      | inl t ↦
          let above : x < elem a j = ltb→lt x (elem a j) t in
          let r = scan_down_lem a x j d (omega arith) h (grind arith) in
          record {
            place = r.place;
            runs = rw e (ground (arith, r.runs));
            from = omega (arith, r.from);
            to = r.to;
            low = r.low;
            passed = λ p lo hi. elim (dec_lt p j) [
              | yes before ↦ r.passed p lo before
              | no last ↦ let e : p ≡ j = omega arith in rw e (omega arith)
            ];
          }
      | inr t ↦ record {
        place = j;
        runs = rw e (ground arith);
        from = omega arith;
        to = omega arith;
        low = ground arith;
        passed = λ p lo hi. absurd (omega arith);
      }
    ]
