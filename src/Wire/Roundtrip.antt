-- ===== src/Wire/Roundtrip.antt =====
-- What the setters of libscsicmd/src/cdb.c write, the getters of scsicmd_utils.h read back.
use Prim.Native.Nat.add
use diskscan.Base.{ℕ, zero, suc, ◌+◌, ◌%◌, ◌^◌, ◌≤◌, ◌≡◌, ap, List, [], ◌∷◌, length, some, arith}
use diskscan.Wire.{get_uint16, get_uint32, get_uint64, set_uint16, set_uint32, set_uint64}

get_uint16-suc : (x : ℕ) (xs : List ℕ) (i : ℕ) → get_uint16 (x ∷ xs) (suc i) ≡ get_uint16 xs i
unfolding get_uint16
get_uint16-suc x xs i = simp add.suc

set_uint16-suc :
    (x : ℕ) (xs : List ℕ) (i v : ℕ) → set_uint16 (x ∷ xs) (suc i) v ≡ x ∷ set_uint16 xs i v
unfolding set_uint16
set_uint16-suc x xs i v = simp add.suc

pub get_uint16-set_uint16 :
    (cdb : List ℕ) (start val : ℕ)
    → start + 2 ≤ length cdb
    → get_uint16 (set_uint16 cdb start val) start ≡ some (val % 2 ^ 16)
get_uint16-set_uint16 [] start val h = absurd (omega arith)
get_uint16-set_uint16 (a ∷ []) zero val h = absurd (omega arith)
get_uint16-set_uint16 (a ∷ b ∷ xs) zero val h =
    unfold get_uint16 set_uint16 in ap some (omega arith)
get_uint16-set_uint16 (x ∷ xs) (suc i) val h =
    rw (set_uint16-suc x xs i val, get_uint16-suc) (get_uint16-set_uint16 xs i val (omega arith))

get_uint32-suc : (x : ℕ) (xs : List ℕ) (i : ℕ) → get_uint32 (x ∷ xs) (suc i) ≡ get_uint32 xs i
unfolding get_uint32
get_uint32-suc x xs i = simp add.suc

set_uint32-suc :
    (x : ℕ) (xs : List ℕ) (i v : ℕ) → set_uint32 (x ∷ xs) (suc i) v ≡ x ∷ set_uint32 xs i v
unfolding set_uint32
set_uint32-suc x xs i v = simp add.suc

pub get_uint32-set_uint32 :
    (cdb : List ℕ) (start val : ℕ)
    → start + 4 ≤ length cdb
    → get_uint32 (set_uint32 cdb start val) start ≡ some (val % 2 ^ 32)
get_uint32-set_uint32 [] start val h = absurd (omega arith)
get_uint32-set_uint32 (a ∷ []) zero val h = absurd (omega arith)
get_uint32-set_uint32 (a ∷ b ∷ []) zero val h = absurd (omega arith)
get_uint32-set_uint32 (a ∷ b ∷ c ∷ []) zero val h = absurd (omega arith)
get_uint32-set_uint32 (a ∷ b ∷ c ∷ d ∷ xs) zero val h =
    unfold get_uint32 set_uint32 in ap some (omega arith)
get_uint32-set_uint32 (x ∷ xs) (suc i) val h =
    rw (set_uint32-suc x xs i val, get_uint32-suc) (get_uint32-set_uint32 xs i val (omega arith))

get_uint64-suc : (x : ℕ) (xs : List ℕ) (i : ℕ) → get_uint64 (x ∷ xs) (suc i) ≡ get_uint64 xs i
unfolding get_uint64
get_uint64-suc x xs i = simp add.suc

set_uint64-suc :
    (x : ℕ) (xs : List ℕ) (i v : ℕ) → set_uint64 (x ∷ xs) (suc i) v ≡ x ∷ set_uint64 xs i v
unfolding set_uint64
set_uint64-suc x xs i v = simp add.suc

-- A 64-bit field written big-endian anywhere inside a buffer is read back, modulo 2 ^ 64.
pub get_uint64-set_uint64 :
    (cdb : List ℕ) (start val : ℕ)
    → start + 8 ≤ length cdb
    → get_uint64 (set_uint64 cdb start val) start ≡ some (val % 2 ^ 64)
get_uint64-set_uint64 [] start val h = absurd (omega arith)
get_uint64-set_uint64 (a ∷ []) zero val h = absurd (omega arith)
get_uint64-set_uint64 (a ∷ b ∷ []) zero val h = absurd (omega arith)
get_uint64-set_uint64 (a ∷ b ∷ c ∷ []) zero val h = absurd (omega arith)
get_uint64-set_uint64 (a ∷ b ∷ c ∷ d ∷ []) zero val h = absurd (omega arith)
get_uint64-set_uint64 (a ∷ b ∷ c ∷ d ∷ e ∷ []) zero val h = absurd (omega arith)
get_uint64-set_uint64 (a ∷ b ∷ c ∷ d ∷ e ∷ f ∷ []) zero val h = absurd (omega arith)
get_uint64-set_uint64 (a ∷ b ∷ c ∷ d ∷ e ∷ f ∷ g ∷ []) zero val h = absurd (omega arith)
get_uint64-set_uint64 (a ∷ b ∷ c ∷ d ∷ e ∷ f ∷ g ∷ k ∷ xs) zero val h =
    unfold get_uint64 set_uint64 in ap some (omega arith)
get_uint64-set_uint64 (x ∷ xs) (suc i) val h =
    rw (set_uint64-suc x xs i val, get_uint64-suc) (get_uint64-set_uint64 xs i val (omega arith))
