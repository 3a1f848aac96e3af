-- ===== src/Ata/Checksum.antt =====
-- The checksum of an ATA page, libscsicmd/include/ata.h, against the sum of its bytes.
use Prim.Native.Nat.add
use diskscan.Base.{
  IsDefined, defined, IsDefined-bind, IsDefined-get_elem?, ℕ, zero, suc, ◌+◌, ◌%◌, ◌^◌, ◌≤◌, ◌<◌,
  ◌≡◌, ◌↔◌, refl, sym, ◌-◌, ◌∙◌, ap, ◌==◌, List, [], ◌∷◌, length, take, some, get_elem?, u32, u8,
  arith,
}
use diskscan.Ata.{byte_sum, ata_calc_checksum, ata_checksum_verify}

-- The sum of a list of bytes.
abbrev pub total : List ℕ → ℕ
total [] = 0
total (b ∷ bs) = b + total bs

byte_sum-suc :
    (n i val b : ℕ) (buf : List ℕ) → byte_sum n (suc i) val (b ∷ buf) ≡ byte_sum n i val buf
unfolding byte_sum
byte_sum-suc zero i val b buf = refl
byte_sum-suc (suc n) i val b buf = simp (add.suc, byte_sum-suc n)

byte_sum-total :
    (n val : ℕ) (buf : List ℕ)
    → n ≤ length buf
    → val < 2 ^ 32
    → byte_sum n 0 val buf ≡ some (u32 (val + total (take n buf)))
unfolding byte_sum
byte_sum-total zero val buf h v = ground arith
byte_sum-total (suc n) val [] h v = absurd (omega arith)
byte_sum-total (suc n) val (b ∷ buf) h v =
    byte_sum-suc n 0 (u32 (val + b)) b buf
    ∙ byte_sum-total n (u32 (val + b)) buf (omega arith) (omega arith)
    ∙ ap some (omega arith)

last :
    (n : ℕ) (buf : List ℕ) {b : ℕ}
    → length buf ≡ suc n
    → get_elem? buf n ≡ some b
    → total buf ≡ total (take n buf) + b
last n [] e g = absurd (omega arith)
last zero (a ∷ []) e g = ground arith
last zero (a ∷ b ∷ buf) e g = absurd (omega arith)
last (suc n) (a ∷ buf) e g = omega (arith, last n buf (omega arith) g)

same_test : (a b c d : ℕ) → (a ≡ b) ↔ (c ≡ d) → (a == b) ≡ (c == d)
same_test a b c d h = ground (arith, h)

complement : (t b : ℕ) → b < 2 ^ 8 → (u8 (0x100 - u32 t % 2 ^ 8) == b) ≡ ((t + b) % 2 ^ 8 == 0)
complement t b h =
    let e : u32 t % 2 ^ 8 ≡ t % 2 ^ 8 = omega arith in
    rw e (same_test _ _ _ _ (λ p. omega arith, λ p. omega arith))

-- A page of 512 bytes whose last is below 256 verifies exactly if the sum of all its bytes is a multiple of 256.
pub ata_checksum_verify_sum :
    (buf : List ℕ) {b : ℕ}
    → length buf ≡ 512
    → get_elem? buf 511 ≡ some b
    → b < 2 ^ 8
    → ata_checksum_verify buf ≡ some (total buf % 2 ^ 8 == 0)
unfolding ata_checksum_verify ata_calc_checksum
ata_checksum_verify_sum buf {b} e g h =
    let s : byte_sum 511 0 0 buf ≡ some (u32 (total (take 511 buf))) =
      byte_sum-total 511 0 buf (omega arith) (omega arith) ∙ ap some (omega arith) in
    let l = last 511 buf e g in
    rw (s, g) (ap some (complement (total (take 511 buf)) b h ∙ ap (λ x. x % 2 ^ 8 == 0) (sym l)))

byte_sum-IsDefined :
    (n i val : ℕ) (buf : List ℕ) → i + n ≤ length buf → IsDefined (byte_sum n i val buf)
unfolding byte_sum
byte_sum-IsDefined zero i val buf h = defined val
byte_sum-IsDefined (suc n) i val buf h =
    IsDefined-bind (IsDefined-get_elem? buf i (omega arith))
      λ b. byte_sum-IsDefined n (i + 1) (u32 (val + b)) buf (omega arith)

pub ata_checksum_verify-IsDefined :
    (buf : List ℕ) → length buf ≡ 512 → IsDefined (ata_checksum_verify buf)
unfolding ata_checksum_verify ata_calc_checksum
ata_checksum_verify-IsDefined buf e =
    IsDefined-bind (IsDefined-bind (byte_sum-IsDefined 511 0 0 buf (omega arith)) λ val. defined _)
      λ s. IsDefined-bind (IsDefined-get_elem? buf 511 (omega arith)) λ b. defined _
