-- ===== src/Inquiry.antt =====
-- The names that a disk gives itself: libscsicmd/src/parse_inquiry.c, `ata_get_string` of
-- libscsicmd/include/ata.h and `strtrim` of arch/arch-linux.c. A string is an array of characters
-- with a zero behind its text; an access outside the array is `none`.
pub mod Text
pub mod Trim
pub mod Fields
use diskscan.Base.{
  ℕ, zero, suc, ◌+◌, ◌-◌, ◌*◌, ◌%◌, ◌^◌, Bool, true, false, ◌&&◌, ◌||◌, not, Option, some, none,
  List, [], ◌∷◌, get_elem?, set, leb, ltb, ◌==◌, length, if◌then◌else◌, ◌>>=◌,
}

-- The fill of `strncpy` behind a zero.
unfoldable pub zero_fill : ℕ → List ℕ → ℕ → Option (List ℕ)
zero_fill zero s to = some s
zero_fill (suc n) s to = get_elem? s to >>= λ old. zero_fill n (set s to 0) (to + 1)

-- `strncpy` of n characters from offset `src` of a buffer to offset `to` of a string; behind a zero
-- it fills with zeros.
unfoldable pub strncpy : ℕ → List ℕ → ℕ → List ℕ → ℕ → Option (List ℕ)
strncpy zero buf src s to = some s
strncpy (suc n) buf src s to = get_elem? buf src >>= λ c. get_elem? s to >>= λ old. elim (c == 0) [
  | true ↦ zero_fill (suc n) s to
  | false ↦ strncpy n buf (src + 1) (set s to c) (to + 1)
]

-- A field of n characters at an offset of the buffer, and the zero behind it.
unfoldable pub copy_field : ℕ → List ℕ → ℕ → List ℕ → Option (List ℕ)
copy_field n buf src s = do
  copied ← strncpy n buf src s 0
  old ← get_elem? copied n
  some (set copied n 0)

-- What a call leaves in its five results; `device_type` is the pattern of -1 or a number of five
-- bits.
pub record Inquiry : Type 0 where
  pub device_type : ℕ
  pub vendor : List ℕ
  pub model : List ℕ
  pub revision : List ℕ
  pub serial : List ℕ

unfoldable pub parse_inquiry : List ℕ → ℕ → Inquiry → Option (Bool × Inquiry)
parse_inquiry buf buf_len out =
    let blank : Inquiry = record {
      device_type = 2 ^ 32 - 1;
      vendor = set out.vendor 0 0;
      model = set out.model 0 0;
      revision = set out.revision 0 0;
      serial = set out.serial 0 0;
    } in
    if ltb buf_len 32 then some (false, blank) else (do
      b3 ← get_elem? buf 3
      b4 ← get_elem? buf 4
      b0 ← get_elem? buf 0
      let fmt = b3 % 2 ^ 4
      let valid_len = b4 + 4
      vendor ← if leb (8 + 8) valid_len then copy_field 8 buf 8 blank.vendor else some blank.vendor
      model ← if leb (16 + 16) valid_len then copy_field 16 buf 16 blank.model else some blank.model
      revision ←
          if leb (32 + 4) valid_len then copy_field 4 buf 32 blank.revision else some blank.revision
      serial ←
          if leb 44 valid_len && fmt == 2
          then copy_field 8 buf 36 blank.serial
          else some blank.serial
      some (
        true,
        record {
          device_type = b0 % 2 ^ 5;
          vendor = vendor;
          model = model;
          revision = revision;
          serial = serial;
        },
      ))

-- n words from `word` on, with the two characters of each exchanged.
unfoldable pub ata_string_words : ℕ → List ℕ → ℕ → List ℕ → ℕ → Option (List ℕ)
ata_string_words zero buf word str i = get_elem? str i >>= λ old. some (set str i 0)
ata_string_words (suc n) buf word str i = do
  c1 ← get_elem? buf (word * 2 + 1)
  old1 ← get_elem? str i
  c0 ← get_elem? buf (word * 2)
  old0 ← get_elem? str (i + 1)
  ata_string_words n buf (word + 1) (set (set str i c1) (i + 1) c0) (i + 2)

unfoldable pub ata_get_string : List ℕ → ℕ → ℕ → List ℕ → Option (List ℕ)
ata_get_string buf word_start word_end str =
    ata_string_words (word_end + 1 - word_start) buf word_start str 0

-- `isspace` is the C library's. The loops have a round for each character of the array at most.
module _ (isspace : ℕ → Bool) where
  unfoldable pub skip_spaces : ℕ → List ℕ → ℕ → Option ℕ
  skip_spaces zero s t = none
  skip_spaces (suc fuel) s t = get_elem? s t >>= λ c. elim (not (c == 0) && isspace c) [
    | true ↦ skip_spaces fuel s (t + 1)
    | false ↦ some t
  ]

  unfoldable pub move_word : ℕ → List ℕ → ℕ → ℕ → Option (List ℕ)
  move_word zero buf t s = none
  move_word (suc fuel) buf t s = get_elem? buf t >>= λ c. elim (not (c == 0) && not (isspace c)) [
    | true ↦ get_elem? buf s >>= λ old. move_word fuel (set buf s c) (t + 1) (s + 1)
    | false ↦ get_elem? buf s >>= λ old. some (set buf s 0)
  ]

  unfoldable pub skip_word : ℕ → List ℕ → ℕ → Option ℕ
  skip_word zero s t = none
  skip_word (suc fuel) s t = get_elem? s t >>= λ c. elim (not (c == 0) && not (isspace c)) [
    | true ↦ skip_word fuel s (t + 1)
    | false ↦ some t
  ]

  unfoldable pub strtrim : List ℕ → Option (List ℕ)
  strtrim s =
      let fuel = length s in
      skip_spaces fuel s 0 >>= λ t. elim (t == 0) [
        | false ↦ move_word fuel s t 0
        | true ↦ skip_word fuel s t >>= λ end. some (set s end 0)
      ]
