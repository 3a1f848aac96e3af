-- ===== src/Base/Defined.antt =====
-- Computations that may leave an array: `IsDefined o` says that `o` has a value.
use Prim.Native.Nat.{ℕ, zero, suc, ◌≤◌, ◌<◌}
use mathlib.Core.Bool.{Bool, true, false}
use mathlib.Core.List.{List, [], ◌∷◌}
use mathlib.Core.Option.{Option, none, some, some-injective}
use mathlib.Core.Path.{◌≡◌, refl, subst}
use native.Mathlib.Omega.{arith}
use diskscan.Base.Tests.{if◌then◌else◌}
use diskscan.Base.Lists.{length, get_elem?}
use diskscan.Base.Words.{◌>>=◌}

pub data IsDefined {ℓ} {A : Type ℓ} : Option A → Type ℓ where
  defined : (a : A) → IsDefined (some a)

pub IsDefined-value {ℓ} : {A : Type ℓ} {o : Option A} → IsDefined o → (a : A) × (o ≡ some a)
IsDefined-value (defined a) = (a, refl)

pub IsDefined-bind {ℓ κ} :
    {A : Type ℓ} {B : Type κ} {m : Option A} {f : A → Option B}
    → IsDefined m
    → ((a : A) → IsDefined (f a))
    → IsDefined (m >>= f)
IsDefined-bind (defined a) k = k a

pub IsDefined-if {ℓ} :
    {A : Type ℓ} (b : Bool) {x y : Option A}
    → IsDefined x
    → IsDefined y
    → IsDefined (if b then x else y)
IsDefined-if true p q = p
IsDefined-if false p q = q

pub IsDefined-get_elem? {ℓ} :
    {A : Type ℓ} (xs : List A) (i : ℕ) → i < length xs → IsDefined (get_elem? xs i)
IsDefined-get_elem? [] i h = elim h [ ]
IsDefined-get_elem? (x ∷ xs) zero h = defined x
IsDefined-get_elem? (x ∷ xs) (suc i) h = IsDefined-get_elem? xs i (omega arith)

-- Each branch may use that its test came out so.
pub IsDefined-if_of {ℓ} :
    {A : Type ℓ} (b : Bool) {x y : Option A}
    → (b ≡ true → IsDefined x)
    → (b ≡ false → IsDefined y)
    → IsDefined (if b then x else y)
IsDefined-if_of true p q = p refl
IsDefined-if_of false p q = q refl

pub bind-eq-none {ℓ κ} :
    {A : Type ℓ} {B : Type κ} (m : Option A) (f : A → Option B)
    → ((a : A) → f a ≡ none)
    → (m >>= f) ≡ none
bind-eq-none none f h = refl
bind-eq-none (some a) f h = h a

pub get_elem?-eq-none {ℓ} :
    {A : Type ℓ} (xs : List A) (i : ℕ) → length xs ≤ i → get_elem? xs i ≡ none
get_elem?-eq-none [] i h = refl
get_elem?-eq-none (x ∷ xs) zero h = absurd (omega arith)
get_elem?-eq-none (x ∷ xs) (suc i) h = get_elem?-eq-none xs i (omega arith)

-- `Ensures P o` says that P holds of the value of `o`, if it has one.
pub data Ensures {ℓ κ} {A : Type ℓ} (P : A → Type κ) : Option A → Type (ℓ ⊔ κ) where
  nothing : Ensures P none
  value : (a : A) → P a → Ensures P (some a)

pub Ensures-bind {ℓ κ μ} :
    {A : Type ℓ} {B : Type κ} {P : B → Type μ} (m : Option A) (f : A → Option B)
    → ((a : A) → Ensures P (f a))
    → Ensures P (m >>= f)
Ensures-bind none f k = nothing
Ensures-bind (some a) f k = k a

pub Ensures-step {ℓ κ μ ν} :
    {A : Type ℓ} {B : Type κ} {P : A → Type μ} {Q : B → Type ν} {m : Option A} (f : A → Option B)
    → Ensures P m
    → ((a : A) → P a → Ensures Q (f a))
    → Ensures Q (m >>= f)
Ensures-step f nothing k = nothing
Ensures-step f (value a p) k = k a p

pub Ensures-if {ℓ κ} :
    {A : Type ℓ} {P : A → Type κ} (b : Bool) {x y : Option A}
    → Ensures P x
    → Ensures P y
    → Ensures P (if b then x else y)
Ensures-if true p q = p
Ensures-if false p q = q

pub Ensures-if_of {ℓ κ} :
    {A : Type ℓ} {P : A → Type κ} (b : Bool) {x y : Option A}
    → (b ≡ true → Ensures P x)
    → (b ≡ false → Ensures P y)
    → Ensures P (if b then x else y)
Ensures-if_of true p q = p refl
Ensures-if_of false p q = q refl

pub Ensures-elim {ℓ κ} :
    {A : Type ℓ} {P : A → Type κ} (o : Option A) {a : A} → Ensures P o → o ≡ some a → P a
Ensures-elim none p e = cc
Ensures-elim {P} (some b) {a} (value _ p) e = subst P (some-injective b a e) p

pub Ensures-mono {ℓ κ μ} :
    {A : Type ℓ} {P : A → Type κ} {Q : A → Type μ} {o : Option A}
    → Ensures P o
    → ((a : A) → P a → Q a)
    → Ensures Q o
Ensures-mono nothing k = nothing
Ensures-mono (value a p) k = value a (k a p)

-- `Fails o` says that `o` has no value.
abbrev pub Fails {ℓ} : {A : Type ℓ} → Option A → Type ℓ
Fails {A} o = Ensures (λ (a : A). ⊥) o

pub Fails-none {ℓ} : {A : Type ℓ} (o : Option A) → Fails o → o ≡ none
Fails-none none nothing = refl
Fails-none (some a) (value _ p) = absurd p

-- `Gives P o` says that `o` has a value, of which P holds.
pub data Gives {ℓ κ} {A : Type ℓ} (P : A → Type κ) : Option A → Type (ℓ ⊔ κ) where
  gives : (a : A) → P a → Gives P (some a)

pub Gives-step {ℓ κ μ ν} :
    {A : Type ℓ} {B : Type κ} {P : A → Type μ} {Q : B → Type ν} {m : Option A} (f : A → Option B)
    → Gives P m
    → ((a : A) → P a → Gives Q (f a))
    → Gives Q (m >>= f)
Gives-step f (gives a p) k = k a p

pub Gives-if_of {ℓ κ} :
    {A : Type ℓ} {P : A → Type κ} (b : Bool) {x y : Option A}
    → (b ≡ true → Gives P x)
    → (b ≡ false → Gives P y)
    → Gives P (if b then x else y)
Gives-if_of true p q = p refl
Gives-if_of false p q = q refl

pub Gives-elim_of {ℓ κ} :
    {A : Type ℓ} {P : A → Type κ} (b : Bool) {x y : Option A}
    → (b ≡ true → Gives P x)
    → (b ≡ false → Gives P y)
    → Gives P (elim b [ true ↦ x | false ↦ y ])
Gives-elim_of true p q = p refl
Gives-elim_of false p q = q refl

pub Gives-mono {ℓ κ μ} :
    {A : Type ℓ} {P : A → Type κ} {Q : A → Type μ} {o : Option A}
    → Gives P o
    → ((a : A) → P a → Q a)
    → Gives Q o
Gives-mono (gives a p) k = gives a (k a p)

pub Gives-value {ℓ κ} :
    {A : Type ℓ} {P : A → Type κ} {o : Option A} → Gives P o → (a : A) × (o ≡ some a) × P a
Gives-value (gives a p) = (a, refl, p)

pub Gives-and {ℓ κ μ} :
    {A : Type ℓ} {P : A → Type κ} {Q : A → Type μ} {o : Option A}
    → Gives P o
    → Ensures Q o
    → Gives (λ a. P a × Q a) o
Gives-and {Q} (gives a p) q = gives a (p, Ensures-elim {P = Q} (some a) q refl)

pub IsDefined-step {ℓ κ μ} :
    {A : Type ℓ} {B : Type κ} {P : A → Type μ} {m : Option A} (f : A → Option B)
    → Gives P m
    → ((a : A) → P a → IsDefined (f a))
    → IsDefined (m >>= f)
IsDefined-step f (gives a p) k = k a p
