-- ===== src/Base/Words.antt =====
-- Fixed-width words as native numbers. An `int` or `int64_t` is its bit pattern; the signed tests
-- compare patterns with the sign bit turned round.
use Prim.Native.Nat.{ℕ, ◌+◌, ◌-◌, ◌/◌, ◌%◌, ◌^◌}
use mathlib.Core.Bool.{Bool}
use mathlib.Core.Option.{Option, none, some}
use diskscan.Base.Tests.{ltb, if◌then◌else◌, ◌==◌}

abbrev pub u8 : ℕ → ℕ
u8 n = n % 2 ^ 8

abbrev pub u16 : ℕ → ℕ
u16 n = n % 2 ^ 16

abbrev pub u32 : ℕ → ℕ
u32 n = n % 2 ^ 32

abbrev pub u64 : ℕ → ℕ
u64 n = n % 2 ^ 64

-- `UINT32_MAX`
abbrev pub uint32_max : ℕ
uint32_max = 2 ^ 32 - 1

-- a - b in `uint64_t`, for a and b below 2 ^ 64
abbrev pub sub64 : ℕ → ℕ → ℕ
sub64 a b = (a + 2 ^ 64 - b) % 2 ^ 64

-- `a < b` in `int` and in `int64_t`, on patterns
abbrev pub slt32 : ℕ → ℕ → Bool
slt32 a b = ltb ((a + 2 ^ 31) % 2 ^ 32) ((b + 2 ^ 31) % 2 ^ 32)

abbrev pub slt64 : ℕ → ℕ → Bool
slt64 a b = ltb ((a + 2 ^ 63) % 2 ^ 64) ((b + 2 ^ 63) % 2 ^ 64)

-- The pattern that a `uint64_t` has for an `int` (the low half), and an `int` pattern widened.
abbrev pub to_int : ℕ → ℕ
to_int n = n % 2 ^ 32

-- An `int` pattern as a `uint64_t`.
abbrev pub widen : ℕ → ℕ
widen n = if ltb n (2 ^ 31) then n else n + (2 ^ 64 - 2 ^ 32)

abbrev pub bit : ℕ → ℕ → Bool
bit n k = n / 2 ^ k % 2 == 1

abbrev pub flag : Bool → ℕ
flag b = if b then 1 else 0

-- The monad of a read that may leave its array.
infixl 5 ◌>>=◌ ◌>>◌
abbrev pub ◌>>=◌ {ℓ κ} : {A : Type ℓ} {B : Type κ} → Option A → (A → Option B) → Option B
none >>= f = none
some a >>= f = f a

abbrev pub ◌>>◌ {ℓ} : {B : Type ℓ} → Option (Unit {0}) → Option B → Option B
m >> k = m >>= λ _. k
