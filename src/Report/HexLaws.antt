-- ===== src/Report/HexLaws.antt =====
-- The dump of lib/data.c read back.
use diskscan.Base.{
  ℕ, zero, suc, ◌+◌, ◌-◌, ◌*◌, ◌/◌, ◌%◌, ◌^◌, ◌<◌, ◌≡◌, refl, sym, List, [], ◌∷◌, length, take, ltb,
  leb, if◌then◌else◌, arith, Bool-cases, inl, inr, ap,
}
use diskscan.Report.Hex.{nibble_to_hex, buf_to_hex}

-- The value of a digit as `nibble_to_hex` writes it.
abbrev pub digit_value : ℕ → ℕ
digit_value d = if ltb d 65 then d - 48 else d - 65 + 10

abbrev pub unhex : List ℕ → List ℕ
unhex [] = []
unhex (h ∷ []) = []
unhex (h ∷ l ∷ rest) = (digit_value h * 2 ^ 4 + digit_value l) ∷ unhex rest

digit-nibble : (n : ℕ) → n < 16 → digit_value (nibble_to_hex n) ≡ n
unfolding nibble_to_hex
digit-nibble n h = ground arith

-- Each entry is a byte.
pub data Bytes : List ℕ → Type 0 where
  none : Bytes []
  more : {b : ℕ} {bs : List ℕ} → b < 256 → Bytes bs → Bytes (b ∷ bs)

take_nil : (n : ℕ) → take {A = ℕ} n [] ≡ []
take_nil zero = refl
take_nil (suc n) = refl

-- The dump fits its buffer with the zero at its end, and read back it is as many of the bytes as two
-- characters each leave room for.
pub unhex-buf_to_hex :
    (buf : List ℕ) (out_buf_len : ℕ)
    → Bytes buf
    → 0 < out_buf_len
    → (unhex (buf_to_hex buf out_buf_len) ≡ take ((out_buf_len - 1) / 2) buf)
      × (length (buf_to_hex buf out_buf_len) < out_buf_len)
unfolding buf_to_hex
unhex-buf_to_hex [] n _ h = (sym (take_nil ((n - 1) / 2)), h)
unhex-buf_to_hex (b ∷ buf) n (more hb rest) h = elim (Bool-cases (leb 3 n)) [
  | inr full ↦ let count : (n - 1) / 2 ≡ 0 = ground (arith, full, h) in rw (full, count) (refl, h)
  | inl room ↦
      let (same, fits) = unhex-buf_to_hex buf (n - 2) rest (ground (arith, room)) in
      let count : (n - 1) / 2 ≡ suc ((n - 2 - 1) / 2) = ground (arith, room) in
      let whole : b / 2 ^ 4 * 2 ^ 4 + b % 2 ^ 4 ≡ b = omega arith in
      rw
        (
          room,
          count,
          digit-nibble (b / 2 ^ 4) (omega (arith, hb)),
          digit-nibble (b % 2 ^ 4) (omega arith),
          same,
        )
        (ap (λ x. x ∷ take ((n - 2 - 1) / 2) buf) whole, ground (arith, fits, room))
]
