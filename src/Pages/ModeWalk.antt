-- ===== src/Pages/ModeWalk.antt =====
-- Where the walk over mode pages of libscsicmd/include/parse_mode_sense.h ends.
use diskscan.Base.{
  ℕ, zero, suc, ◌+◌, ◌-◌, ◌*◌, ◌%◌, ◌^◌, ◌<◌, ◌≤◌, ◌≡◌, ◌≢◌, refl, true, false, some, none, List,
  length, get_or, get_elem?-get_or, get_elem?-eq-none, arith, ltb, u32, Bool-cases, inl, inr,
  if◌then◌else◌, bit,
}
use native.Mathlib.Nat.{mod-eq_of_lt}
use diskscan.Wire.{get_uint16, safe_len}
use diskscan.Pages.Mode.{
  mode_sense_data_page_code, mode_sense_data_subpage_format, mode_sense_data_page_len,
  mode_sense_data_param_len, mode_sense_data_param_is_valid, mode_pages_from, mode_pages,
}

-- The lengths of a page as its bytes give them.
abbrev param_bytes : List ℕ → ℕ → ℕ
param_bytes buf p =
    if bit (get_or buf p 0) 6
    then get_or buf (p + 2) 0 * 2 ^ 8 + get_or buf (p + 2 + 1) 0
    else get_or buf (p + 1) 0

abbrev page_bytes : List ℕ → ℕ → ℕ
page_bytes buf p = if bit (get_or buf p 0) 6 then 3 + param_bytes buf p else 2 + param_bytes buf p

-- From p on, the buffer is nothing but pages, each with a code and with the length that the walk
-- gives it.
pub data Paged (buf : List ℕ) : ℕ → Type 0 where
  ended : Paged buf (length buf)
  page :
      {p : ℕ}
      → p + 4 ≤ length buf
      → get_or buf p 0 % 2 ^ 6 ≢ 0
      → p + page_bytes buf p ≤ length buf
      → Paged buf (p + page_bytes buf p)
      → Paged buf p

param_len_lem :
    (buf : List ℕ) (p : ℕ)
    → p + 4 ≤ length buf
    → mode_sense_data_param_len buf p ≡ some (param_bytes buf p)
unfolding mode_sense_data_param_len mode_sense_data_subpage_format get_uint16
param_len_lem buf p h = elim (Bool-cases (bit (get_or buf p 0) 6)) [
  | inl long ↦
      rw
        (
          get_elem?-get_or buf p 0 (omega arith),
          long,
          get_elem?-get_or buf (p + 2) 0 (omega arith),
          get_elem?-get_or buf (p + 2 + 1) 0 (omega arith),
        )
        refl
  | inr short ↦
      rw
        (
          get_elem?-get_or buf p 0 (omega arith),
          short,
          get_elem?-get_or buf (p + 1) 0 (omega arith),
        )
        refl
]

page_len_lem :
    (buf : List ℕ) (p : ℕ)
    → p + 4 ≤ length buf
    → mode_sense_data_page_len buf p ≡ some (page_bytes buf p)
unfolding mode_sense_data_page_len mode_sense_data_subpage_format get_uint16
page_len_lem buf p h = elim (Bool-cases (bit (get_or buf p 0) 6)) [
  | inl long ↦
      rw
        (
          get_elem?-get_or buf p 0 (omega arith),
          long,
          get_elem?-get_or buf (p + 2) 0 (omega arith),
          get_elem?-get_or buf (p + 2 + 1) 0 (omega arith),
        )
        refl
  | inr short ↦
      rw
        (
          get_elem?-get_or buf p 0 (omega arith),
          short,
          get_elem?-get_or buf (p + 1) 0 (omega arith),
        )
        refl
]

valid_lem :
    (buf : List ℕ) (p remaining : ℕ)
    → p + 4 ≤ length buf
    → get_or buf p 0 % 2 ^ 6 ≢ 0
    → p + page_bytes buf p ≤ length buf
    → length buf ≤ p + remaining
    → mode_sense_data_param_is_valid buf p remaining ≡ some true
unfolding mode_sense_data_param_is_valid mode_sense_data_page_code mode_sense_data_subpage_format
valid_lem buf p remaining h code fits enough =
    rw (page_len_lem buf p h, get_elem?-get_or buf p 0 (omega arith)) (ground arith)

param-le-page : (buf : List ℕ) (p : ℕ) → param_bytes buf p ≤ page_bytes buf p
param-le-page buf p = ground arith

invalid_end :
    (buf : List ℕ) (remaining : ℕ)
    → 4 ≤ remaining
    → mode_sense_data_param_is_valid buf (length buf) remaining ≡ none
unfolding mode_sense_data_param_is_valid mode_sense_data_page_code
invalid_end buf remaining h =
    rw (get_elem?-eq-none buf (length buf) (omega arith)) (ground (arith, h))

-- The remaining length never falls behind the rest of the buffer, so only the end of the array
-- ends the walk.
walk_overruns :
    (fuel : ℕ) (buf : List ℕ) (remaining p : ℕ)
    → 4 ≤ remaining
    → length buf ≤ p + remaining
    → remaining + length buf < 2 ^ 32 + p
    → Paged buf p
    → mode_pages_from fuel buf remaining p ≡ none
unfolding mode_pages_from
walk_overruns zero buf remaining p h4 enough room paged = refl
walk_overruns (suc fuel) buf remaining p h4 enough room ended =
    let long : ltb remaining 3 ≡ false = ground arith in
    rw (long, invalid_end buf remaining h4) refl
walk_overruns (suc fuel) buf remaining p h4 enough room (page at code fits rest) =
    let long : ltb remaining 3 ≡ false = ground arith in
    let kept = param-le-page buf p in
    let next : u32 (remaining + param_bytes buf p) ≡ remaining + param_bytes buf p =
      mod-eq_of_lt (omega (arith, kept)) in
    rw
      (
        long,
        valid_lem buf p remaining at code fits enough,
        param_len_lem buf p at,
        page_len_lem buf p at,
        next,
        walk_overruns fuel buf (remaining + param_bytes buf p) (p + page_bytes buf p) (omega arith)
            (omega (arith, kept)) (omega (arith, kept)) rest,
      )
      refl

-- On a buffer that ends where its last mode page ends, with a whole header and less than 2 GiB, the
-- walk over the mode pages does not end inside the buffer, whatever number of rounds it has.
pub mode_pages-overrun :
    (fuel : ℕ) (buf : List ℕ) (mode_data : ℕ)
    → 4 ≤ mode_data
    → mode_data ≤ length buf
    → length buf < 2 ^ 31
    → Paged buf mode_data
    → mode_pages fuel buf (length buf) mode_data (length buf - mode_data) ≡ none
unfolding mode_pages safe_len
mode_pages-overrun fuel buf mode_data h4 inside small paged =
    let start : u32 (mode_data + safe_len (length buf) mode_data (length buf - mode_data))
        ≡ length buf =
      ground arith in
    rw start (
      walk_overruns fuel buf (length buf) mode_data (omega arith) (omega arith) (omega arith) paged)
