-- ===== src/Base/Perms.antt =====
-- Writes into a list, up to the order of its entries.
use Prim.Native.Nat.{ℕ, zero, suc, ◌<◌}
use mathlib.Core.Path.{◌≡◌, sym, ◌∙◌, subst}
use mathlib.Core.Logic.{◌≢◌}
use mathlib.Core.List.{List, [], ◌∷◌, Perm}
use mathlib.Core.List.Perm
use mathlib.Core.Option.{some, some-injective}
use diskscan.Base.Lists.{get_elem?, set, length, get_elem?-set_self, get_elem?-set_ne}

module _ {ℓ} {A : Type ℓ} where
  -- A write trades the old entry for the new one.
  set-perm :
      (xs : List A) (i : ℕ) {a : A} (v : A)
      → get_elem? xs i ≡ some a
      → Perm (a ∷ set xs i v) (v ∷ xs)
  set-perm [] i v h = cc
  set-perm (x ∷ xs) zero {a} v h =
      subst (λ y. Perm (a ∷ v ∷ xs) (v ∷ y ∷ xs)) (sym (some-injective x a h)) (Perm.swap v a xs)
  set-perm (x ∷ xs) (suc i) {a} v h =
      let rest = Perm.cons x (set-perm xs i v h) in
      Perm.trans (Perm.swap x a (set xs i v)) (Perm.trans rest (Perm.swap v x xs))

  pub set-set-perm :
      (xs : List A) {i j : ℕ} {a b : A}
      → i ≢ j
      → get_elem? xs i ≡ some a
      → get_elem? xs j ≡ some b
      → Perm (set (set xs i b) j a) xs
  set-set-perm xs {i} {j} {a} {b} ne ha hb =
      let kept = get_elem?-set_ne xs b ne ∙ hb in
      Perm.cons_inv (Perm.trans (set-perm (set xs i b) j a kept) (set-perm xs i b ha))

  -- The exchange of an entry with itself.
  pub set-set_self-perm :
      (xs : List A) {i : ℕ} {a : A}
      → i < length xs
      → get_elem? xs i ≡ some a
      → Perm (set (set xs i a) i a) xs
  set-set_self-perm xs {i} {a} inside h =
      let kept = get_elem?-set_self xs i a inside in
      Perm.cons_inv (Perm.trans (set-perm (set xs i a) i a kept) (set-perm xs i a h))
