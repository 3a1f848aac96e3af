-- ===== src/Median/Exchange.antt =====
-- One round of the partition of include/median.h: an exchange, and what stops the next round.
use diskscan.Base.{
  ℕ, suc, ◌+◌, ◌-◌, ◌≤◌, ◌<◌, ◌≡◌, refl, ◌∙◌, true, false, some, List, length, ltb, ltb→lt,
  Bool-cases, inl, inr, ◌>>=◌, arith, if◌then◌else◌, get_elem?-get_or,
}
use mathlib.Core.List.{Perm}
use mathlib.Core.List.Perm
use diskscan.Median.{elem_swap, scan_up, scan_down, exchange}
use diskscan.Median.Bounds.{elem, scan_up_lem, scan_down_lem}
use diskscan.Median.Sorts.{Sorts, swapped-Sorts, passed-Sorts}
use diskscan.Median.Swapped.{swapped, length-swapped, elem-swapped, swapped-perm}

elem_swap-swapped :
    (a : List ℕ) (i j : ℕ) → i < length a → j < length a → elem_swap a i j ≡ some (swapped a i j)
unfolding elem_swap
elem_swap-swapped a i j h k = rw (get_elem?-get_or a i 0 h, get_elem?-get_or a j 0 k) refl

-- Two elements that stop the scans: at u, not below x, and at d, not above it.
pub record Stops (a : List ℕ) (x i j1 u d : ℕ) : Type 0 where
  pub inside : j1 ≤ length a
  pub up_inside : u < length a
  pub up_from : i ≤ u
  pub up_to : u ≤ j1
  pub up_high : x ≤ elem a u
  pub down_before : d < j1
  pub down_from : i ≤ d + 1
  pub down_low : elem a d ≤ x

-- One round: the indices close in, both by one at least where one element stops both scans; and
-- where they have not met, the exchanged elements stop the next round.
pub record Exchanged (a : List ℕ) (x i j1 u d : ℕ) : Type 0 where
  pub array : List ℕ
  pub i' : ℕ
  pub j1' : ℕ
  pub runs : exchange a x i j1 ≡ some (array, i', j1')
  pub same_length : length array ≡ length a
  pub rearranged : Perm array a
  pub sorts : Sorts a array x i j1 i' j1'
  pub from : i ≤ i'
  pub to : j1' ≤ j1
  pub both : u ≡ d → (i < i') × (j1' < j1)
  pub next_up : ℕ
  pub next_down : ℕ
  pub again : i' < j1' → (i < i') × Stops array x i' j1' next_up next_down

exchange-swaps :
    (a : List ℕ) (x i j1 : ℕ) {p q : ℕ}
    → scan_up (length a + 1) a x i ≡ some p
    → scan_down a x j1 ≡ some (suc q)
    → ltb p (suc q) ≡ true
    → p < length a
    → q < length a
    → exchange a x i j1 ≡ some (swapped a p q, p + 1, q)
unfolding exchange
exchange-swaps a x i j1 {p} {q} eu ed t h k =
    let e : suc q - 1 ≡ q = omega arith in
    let w = elem_swap-swapped a p q h k in rw (eu, ed) (go e w t)
  where
    go :
        {n : ℕ}
        → n ≡ q
        → elem_swap a p q ≡ some (swapped a p q)
        → ltb p (suc q) ≡ true
        → (if ltb p (suc q)
            then ◌>>=◌ {B = List ℕ × ℕ × ℕ} (elem_swap a p n) (λ a'. some (a', p + 1, n))
            else some (a, p, suc q))
          ≡ some (swapped a p q, p + 1, q)
    go e w t = rw (t, e, w) refl

exchange-keeps :
    (a : List ℕ) (x i j1 : ℕ) {p q : ℕ}
    → scan_up (length a + 1) a x i ≡ some p
    → scan_down a x j1 ≡ some (suc q)
    → ltb p (suc q) ≡ false
    → exchange a x i j1 ≡ some (a, p, suc q)
unfolding exchange
exchange-keeps a x i j1 {p} {q} eu ed t = rw (eu, ed) (ground (arith, t))

swapped-Stops :
    (a : List ℕ) (x p q : ℕ)
    → q < length a
    → x ≤ elem a p
    → elem a q ≤ x
    → p + 1 < q
    → Stops (swapped a p q) x (p + 1) q q p
swapped-Stops a x p q h up down lt =
    let high : elem (swapped a p q) q ≡ elem a p =
      elem-swapped a p q q (omega arith) h ∙ ground arith in
    let low : elem (swapped a p q) p ≡ elem a q =
      elem-swapped a p q p (omega arith) h ∙ ground arith in
    record {
      inside = omega (arith, length-swapped a p q);
      up_inside = omega (arith, length-swapped a p q);
      up_from = omega arith;
      up_to = omega arith;
      up_high = rw high up;
      down_before = omega arith;
      down_from = omega arith;
      down_low = rw low down;
    }

pub exchange-Exchanged : (a : List ℕ) (x i j1 u d : ℕ) → Stops a x i j1 u d → Exchanged a x i j1 u d
exchange-Exchanged a x i j1 u d s =
    let up =
      scan_up_lem (length a + 1) a x i u s.up_inside s.up_high s.up_from
        (omega (arith, s.up_inside)) in
    let down = scan_down_lem a x j1 d s.inside s.down_low s.down_before in
    elim (Bool-cases (ltb up.place (suc down.place))) [
      | inl t ↦
          let lt = ltb→lt up.place (suc down.place) t in
          record {
            array = swapped a up.place down.place;
            i' = up.place + 1;
            j1' = down.place;
            runs =
                exchange-swaps a x i j1 up.runs down.runs t (omega (arith, up.to, s.up_inside))
                  (omega (arith, down.from, s.inside));
            sorts =
                swapped-Sorts a x i j1 up.place down.place up.from down.from up.passed down.passed
                  (omega arith) (omega (arith, down.from, s.inside)) up.high down.low;
            same_length = length-swapped a up.place down.place;
            rearranged =
                swapped-perm a up.place down.place (omega (arith, up.to, s.up_inside))
                  (omega (arith, down.from, s.inside));
            from = omega (arith, up.from);
            to = omega (arith, down.from);
            both = λ e. (omega (arith, up.from), omega (arith, down.from));
            next_up = down.place;
            next_down = up.place;
            again = λ h. (
              omega (arith, up.from),
              swapped-Stops a x up.place down.place (omega (arith, down.from, s.inside)) up.high
                  down.low h,
            );
          }
      | inr t ↦
          let ge : suc down.place ≤ up.place = ground arith in
          record {
            array = a;
            i' = up.place;
            j1' = suc down.place;
            runs = exchange-keeps a x i j1 up.runs down.runs t;
            sorts =
                passed-Sorts a x i j1 up.place down.place up.from down.from up.passed down.passed ge
                  (omega (arith, s.down_from, down.to)) (omega (arith, s.up_to, up.to));
            same_length = refl;
            rearranged = Perm.refl a;
            from = up.from;
            to = down.from;
            both = λ e. absurd (omega (arith, up.to, down.to, ge));
            next_up = 0;
            next_down = 0;
            again = λ h. absurd (omega (arith, ge));
          }
    ]
