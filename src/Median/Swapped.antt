-- ===== src/Median/Swapped.antt =====
-- The array of include/median.h after an exchange of two elements.
use mathlib.Core.Path.{subst, sym}
use mathlib.Core.List.{Perm}
use diskscan.Base.{
  ℕ, zero, suc, ◌<◌, ◌≡◌, ◌≢◌, refl, ap, ◌∙◌, List, [], ◌∷◌, length, set, Bool-cases, inl, inr,
  arith, if◌then◌else◌, length-set, get_elem?-get_or, set-set-perm, set-set_self-perm, ◌==◌,
}
use diskscan.Median.Bounds.{elem}

get_or-set_self : (xs : List ℕ) (i v : ℕ) → i < length xs → elem (set xs i v) i ≡ v
get_or-set_self [] i v h = absurd (omega arith)
get_or-set_self (x ∷ xs) zero v h = refl
get_or-set_self (x ∷ xs) (suc i) v h = get_or-set_self xs i v (omega arith)

get_or-set_ne : (xs : List ℕ) (i j v : ℕ) → i ≢ j → elem (set xs i v) j ≡ elem xs j
get_or-set_ne [] i j v h = refl
get_or-set_ne (x ∷ xs) zero zero v h = absurd (h refl)
get_or-set_ne (x ∷ xs) zero (suc j) v h = refl
get_or-set_ne (x ∷ xs) (suc i) zero v h = refl
get_or-set_ne (x ∷ xs) (suc i) (suc j) v h = get_or-set_ne xs i j v (λ e. h (ap suc e))

-- The array after an exchange of two elements.
abbrev pub swapped : List ℕ → ℕ → ℕ → List ℕ
swapped a i j = set (set a i (elem a j)) j (elem a i)

pub length-swapped : (a : List ℕ) (i j : ℕ) → length (swapped a i j) ≡ length a
length-swapped a i j = length-set (set a i (elem a j)) j (elem a i) ∙ length-set a i (elem a j)

pub elem-swapped :
    (a : List ℕ) (i j p : ℕ)
    → i < length a
    → j < length a
    → elem (swapped a i j) p ≡ (if p == j then elem a i else if p == i then elem a j else elem a p)
elem-swapped a i j p h k =
    let here : p ≡ j → elem (swapped a i j) p ≡ elem a i = λ e. rw e (
      get_or-set_self (set a i (elem a j)) j (elem a i)
        (omega (arith, length-set a i (elem a j)))) in
    let there : p ≢ j → elem (swapped a i j) p ≡ elem (set a i (elem a j)) p =
      λ ne. get_or-set_ne (set a i (elem a j)) j p (elem a i) (λ e. ne (sym e)) in
    let first : p ≡ i → elem (set a i (elem a j)) p ≡ elem a j =
      λ e. rw e (get_or-set_self a i (elem a j) h) in
    let rest : p ≢ i → elem (set a i (elem a j)) p ≡ elem a p =
      λ ne. get_or-set_ne a i p (elem a j) (λ e. ne (sym e)) in
    ground (arith, here, there, first, rest)

pub swapped-perm : (a : List ℕ) (i j : ℕ) → i < length a → j < length a → Perm (swapped a i j) a
swapped-perm a i j h k = elim (Bool-cases (i == j)) [
  | inl t ↦
      let e : i ≡ j = ground (arith, t) in
      subst (λ m. Perm (swapped a i m) a) e (set-set_self-perm a h (get_elem?-get_or a i 0 h))
  | inr t ↦
      let ne : i ≢ j = λ e. ground (arith, t) in
      set-set-perm a ne (get_elem?-get_or a i 0 h) (get_elem?-get_or a j 0 k)
]
