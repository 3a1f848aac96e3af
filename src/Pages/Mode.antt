-- ===== src/Pages/Mode.antt =====
-- Mode pages: libscsicmd/include/parse_mode_sense.h.
use diskscan.Base.{
  ℕ, zero, suc, ◌+◌, ◌-◌, ◌%◌, ◌^◌, Bool, true, false, Option, some, none, List, [], ◌∷◌, get_elem?,
  bit, ltb, ◌==◌, ◌&&◌, not, if◌then◌else◌, ◌>>=◌, u32,
}
use diskscan.Wire.{get_uint16, get_uint24, safe_len}

unfoldable pub mode_sense_6_data_len : List ℕ → Option ℕ
mode_sense_6_data_len buf = get_elem? buf 0

unfoldable pub mode_sense_6_medium_type : List ℕ → Option ℕ
mode_sense_6_medium_type buf = get_elem? buf 1

unfoldable pub mode_sense_6_device_specific_param : List ℕ → Option ℕ
mode_sense_6_device_specific_param buf = get_elem? buf 2

unfoldable pub mode_sense_6_block_descriptor_length : List ℕ → Option ℕ
mode_sense_6_block_descriptor_length buf = get_elem? buf 3

unfoldable pub mode_sense_6_mode_data : List ℕ → Option ℕ
mode_sense_6_mode_data buf = mode_sense_6_block_descriptor_length buf >>= λ bd. some (4 + bd)

unfoldable pub mode_sense_6_expected_length : List ℕ → Option ℕ
mode_sense_6_expected_length buf = mode_sense_6_data_len buf >>= λ len. some (1 + len)

-- In `unsigned`, with its wrap below zero.
unfoldable pub mode_sense_6_mode_data_len : List ℕ → Option ℕ
mode_sense_6_mode_data_len buf = do
  len ← mode_sense_6_expected_length buf
  bd ← mode_sense_6_block_descriptor_length buf
  some (u32 (len + 2 ^ 32 - 4 - bd))

unfoldable pub mode_sense_6_is_valid_header : List ℕ → ℕ → Option Bool
mode_sense_6_is_valid_header buf data_len = do
  len ← mode_sense_6_data_len buf
  if ltb len 3 then some false else if ltb data_len (len + 1) then some false else (do
    bd ← mode_sense_6_block_descriptor_length buf
    if not (bd == 0) && not (bd == 8) then some false else some (not (ltb len bd)))

unfoldable pub mode_sense_10_data_len : List ℕ → Option ℕ
mode_sense_10_data_len buf = get_uint16 buf 0

unfoldable pub mode_sense_10_medium_type : List ℕ → Option ℕ
mode_sense_10_medium_type buf = get_elem? buf 2

unfoldable pub mode_sense_10_device_specific_param : List ℕ → Option ℕ
mode_sense_10_device_specific_param buf = get_elem? buf 3

unfoldable pub mode_sense_10_long_lba : List ℕ → Option Bool
mode_sense_10_long_lba buf = get_elem? buf 4 >>= λ b. some (bit b 0)

unfoldable pub mode_sense_10_block_descriptor_length : List ℕ → Option ℕ
mode_sense_10_block_descriptor_length buf = get_uint16 buf 6

-- The inner `none` is NULL.
unfoldable pub mode_sense_10_block_descriptor_data : List ℕ → Option (Option ℕ)
mode_sense_10_block_descriptor_data buf = mode_sense_10_block_descriptor_length buf >>= λ bd.
    if ltb 0 bd then some (some 8) else some none

unfoldable pub mode_sense_10_mode_data : List ℕ → Option ℕ
mode_sense_10_mode_data buf = mode_sense_10_block_descriptor_length buf >>= λ bd. some (8 + bd)

unfoldable pub mode_sense_10_expected_length : List ℕ → Option ℕ
mode_sense_10_expected_length buf = mode_sense_10_data_len buf >>= λ len. some (2 + len)

unfoldable pub mode_sense_10_mode_data_len : List ℕ → Option ℕ
mode_sense_10_mode_data_len buf = do
  len ← mode_sense_10_expected_length buf
  bd ← mode_sense_10_block_descriptor_length buf
  some (u32 (len + 2 ^ 32 - 8 - bd))

unfoldable pub mode_sense_10_is_valid_header : List ℕ → ℕ → Option Bool
mode_sense_10_is_valid_header buf data_len = do
  len ← mode_sense_10_data_len buf
  if ltb len 6 then some false else if ltb data_len (len + 2) then some false else (do
    bd ← mode_sense_10_block_descriptor_length buf
    some (not (not (bd == 0) && not (bd == 8))))

-- The block descriptor and the page begin at an offset of the buffer.
unfoldable pub block_descriptor_density_code : List ℕ → ℕ → Option ℕ
block_descriptor_density_code buf bd = get_elem? buf bd

unfoldable pub block_descriptor_num_blocks : List ℕ → ℕ → Option ℕ
block_descriptor_num_blocks buf bd = get_uint24 buf (bd + 1)

unfoldable pub block_descriptor_block_length : List ℕ → ℕ → Option ℕ
block_descriptor_block_length buf bd = get_uint24 buf (bd + 5)

unfoldable pub mode_sense_data_page_code : List ℕ → ℕ → Option ℕ
mode_sense_data_page_code buf page = get_elem? buf page >>= λ b. some (b % 2 ^ 6)

unfoldable pub mode_sense_data_subpage_format : List ℕ → ℕ → Option Bool
mode_sense_data_subpage_format buf page = get_elem? buf page >>= λ b. some (bit b 6)

unfoldable pub mode_sense_data_parameter_saveable : List ℕ → ℕ → Option Bool
mode_sense_data_parameter_saveable buf page = get_elem? buf page >>= λ b. some (bit b 7)

unfoldable pub mode_sense_data_subpage_code : List ℕ → ℕ → Option ℕ
mode_sense_data_subpage_code buf page = get_elem? buf (page + 1)

unfoldable pub mode_sense_data_page_len : List ℕ → ℕ → Option ℕ
mode_sense_data_page_len buf page = mode_sense_data_subpage_format buf page >>= λ format.
    elim format [
      | true ↦ get_uint16 buf (page + 2) >>= λ len. some (3 + len)
      | false ↦ get_elem? buf (page + 1) >>= λ len. some (2 + len)
    ]

unfoldable pub mode_sense_data_param_len : List ℕ → ℕ → Option ℕ
mode_sense_data_param_len buf page = mode_sense_data_subpage_format buf page >>= λ format.
    elim format [ true ↦ get_uint16 buf (page + 2) | false ↦ get_elem? buf (page + 1) ]

unfoldable pub mode_sense_data_param : List ℕ → ℕ → Option ℕ
mode_sense_data_param buf page = mode_sense_data_subpage_format buf page >>= λ format.
    if format then some (page + 4) else some (page + 2)

unfoldable pub mode_sense_data_param_is_valid : List ℕ → ℕ → ℕ → Option Bool
mode_sense_data_param_is_valid buf page data_len = if ltb data_len 2 then some false else (do
  code ← mode_sense_data_page_code buf page
  format ← mode_sense_data_subpage_format buf page
  if code == 0
      then some false
      else if format && ltb data_len 4
      then some false
      else mode_sense_data_page_len buf page >>= λ len. some (not (ltb data_len len)))

-- `for_all_mode_sense_pages`: the pages that the loop visits, for `fuel` of them at most. The
-- remaining length is an `unsigned`.
unfoldable pub mode_pages_from : ℕ → List ℕ → ℕ → ℕ → Option (List ℕ)
mode_pages_from zero buf remaining_len page = none
mode_pages_from (suc fuel) buf remaining_len page =
    if ltb remaining_len 3
    then some []
    else (mode_sense_data_param_is_valid buf page remaining_len >>= λ ok. elim ok [
      | false ↦ some []
      | true ↦ mode_sense_data_param_len buf page >>= λ param_len.
          mode_sense_data_page_len buf page >>= λ page_len.
          mode_pages_from fuel buf (u32 (remaining_len + param_len)) (page + page_len) >>= λ pages.
          some (page ∷ pages)
    ])

unfoldable pub mode_pages : ℕ → List ℕ → ℕ → ℕ → ℕ → Option (List ℕ)
mode_pages fuel buf data_len mode_data mode_data_len =
    mode_pages_from fuel buf (u32 (mode_data + safe_len data_len mode_data mode_data_len)) mode_data

unfoldable pub mode_sense_6_pages : ℕ → List ℕ → ℕ → Option (List ℕ)
mode_sense_6_pages fuel buf data_len = do
  mode_data ← mode_sense_6_mode_data buf
  mode_data_len ← mode_sense_6_mode_data_len buf
  mode_pages fuel buf data_len mode_data mode_data_len

unfoldable pub mode_sense_10_pages : ℕ → List ℕ → ℕ → Option (List ℕ)
mode_sense_10_pages fuel buf data_len = do
  mode_data ← mode_sense_10_mode_data buf
  mode_data_len ← mode_sense_10_mode_data_len buf
  mode_pages fuel buf data_len mode_data mode_data_len
