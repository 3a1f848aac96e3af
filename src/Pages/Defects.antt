-- ===== src/Pages/Defects.antt =====
-- Defect lists: libscsicmd/include/parse_read_defect_data.h.
use diskscan.Base.{
  ℕ, ◌+◌, ◌%◌, ◌^◌, Bool, false, Option, some, List, get_elem?, bit, ltb, ◌==◌, not, if◌then◌else◌,
  ◌>>=◌, u32,
}
use diskscan.Wire.{get_uint16, get_uint24, get_uint32, get_uint64}

unfoldable pub read_defect_data_10_is_plist_valid : List ℕ → Option Bool
read_defect_data_10_is_plist_valid buf = get_elem? buf 1 >>= λ b. some (bit b 4)

unfoldable pub read_defect_data_10_is_glist_valid : List ℕ → Option Bool
read_defect_data_10_is_glist_valid buf = get_elem? buf 1 >>= λ b. some (bit b 3)

unfoldable pub read_defect_data_10_list_format : List ℕ → Option ℕ
read_defect_data_10_list_format buf = get_elem? buf 1 >>= λ b. some (b % 2 ^ 3)

unfoldable pub read_defect_data_10_len : List ℕ → Option ℕ
read_defect_data_10_len buf = get_uint16 buf 2

unfoldable pub read_defect_data_10_hdr_is_valid : List ℕ → ℕ → Option Bool
read_defect_data_10_hdr_is_valid buf data_len =
    if ltb data_len 4
    then some false
    else read_defect_data_10_len buf >>= λ len. some (len % 4 == 0)

unfoldable pub read_defect_data_10_is_valid : List ℕ → ℕ → Option Bool
read_defect_data_10_is_valid buf data_len = read_defect_data_10_hdr_is_valid buf data_len >>= λ ok.
    if not ok
    then some false
    else read_defect_data_10_len buf >>= λ len. some (not (ltb (len + 4) data_len))

unfoldable pub read_defect_data_12_is_plist_valid : List ℕ → Option Bool
read_defect_data_12_is_plist_valid buf = get_elem? buf 1 >>= λ b. some (bit b 4)

unfoldable pub read_defect_data_12_is_glist_valid : List ℕ → Option Bool
read_defect_data_12_is_glist_valid buf = get_elem? buf 1 >>= λ b. some (bit b 3)

unfoldable pub read_defect_data_12_list_format : List ℕ → Option ℕ
read_defect_data_12_list_format buf = get_elem? buf 1 >>= λ b. some (b % 2 ^ 3)

unfoldable pub read_defect_data_12_len : List ℕ → Option ℕ
read_defect_data_12_len buf = get_uint32 buf 4

unfoldable pub read_defect_data_12_hdr_is_valid : List ℕ → ℕ → Option Bool
read_defect_data_12_hdr_is_valid buf data_len =
    if ltb data_len 8
    then some false
    else read_defect_data_12_len buf >>= λ len. some (len % 4 == 0)

-- The sum is a `uint32_t`.
unfoldable pub read_defect_data_12_is_valid : List ℕ → ℕ → Option Bool
read_defect_data_12_is_valid buf data_len = read_defect_data_12_hdr_is_valid buf data_len >>= λ ok.
    if not ok
    then some false
    else read_defect_data_12_len buf >>= λ len. some (not (ltb (u32 (len + 8)) data_len))

-- An address descriptor begins at an offset of the buffer.
unfoldable pub format_address_short_lba : List ℕ → ℕ → Option ℕ
format_address_short_lba buf desc = get_uint32 buf desc

unfoldable pub format_address_long_lba : List ℕ → ℕ → Option ℕ
format_address_long_lba buf desc = get_uint64 buf desc >>= λ lba. some (u32 lba)

unfoldable pub format_address_byte_from_index_cylinder : List ℕ → ℕ → Option ℕ
format_address_byte_from_index_cylinder buf desc = get_uint24 buf desc

unfoldable pub format_address_byte_from_index_head : List ℕ → ℕ → Option ℕ
format_address_byte_from_index_head buf desc = get_elem? buf (desc + 3)

unfoldable pub format_address_byte_from_index_bytes : List ℕ → ℕ → Option ℕ
format_address_byte_from_index_bytes buf desc = get_uint32 buf (desc + 4)

unfoldable pub format_address_physical_cylinder : List ℕ → ℕ → Option ℕ
format_address_physical_cylinder buf desc = get_uint24 buf desc

unfoldable pub format_address_physical_head : List ℕ → ℕ → Option ℕ
format_address_physical_head buf desc = get_elem? buf (desc + 3)

unfoldable pub format_address_physical_sector : List ℕ → ℕ → Option ℕ
format_address_physical_sector buf desc = get_uint32 buf (desc + 4)

-- By the number of the format.
unfoldable pub read_defect_data_fmt_len : ℕ → ℕ
read_defect_data_fmt_len fmt =
    if fmt == 0
    then 4
    else if fmt == 3
    then 8
    else if fmt == 4
    then 8
    else if fmt == 5
    then 8
    else if fmt == 6
    then 4
    else 0
