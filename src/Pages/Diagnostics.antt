-- ===== src/Pages/Diagnostics.antt =====
-- Diagnostic pages and vital product data: libscsicmd/include/parse_receive_diagnostics.h and
-- libscsicmd/include/parse_extended_inquiry.h.
use diskscan.Base.{
  ℕ, zero, suc, ◌+◌, ◌*◌, ◌-◌, ◌/◌, ◌%◌, ◌^◌, Bool, false, Option, some, List, get_elem?, set, ltb,
  leb, ◌&&◌, ◌||◌, not, if◌then◌else◌, ◌>>=◌, u8, u32,
}
use diskscan.Wire.{get_uint32, get_uint64}

unfoldable pub recv_diag_get_page_code : List ℕ → Option ℕ
recv_diag_get_page_code buf = get_elem? buf 0

unfoldable pub recv_diag_get_page_code_specific : List ℕ → Option ℕ
recv_diag_get_page_code_specific buf = get_elem? buf 1

unfoldable pub recv_diag_get_len : List ℕ → Option ℕ
recv_diag_get_len buf = do b2 ← get_elem? buf 2; b3 ← get_elem? buf 3; some (b2 * 2 ^ 8 + b3)

unfoldable pub recv_diag_is_valid : List ℕ → ℕ → Option Bool
recv_diag_is_valid buf data_len =
    if ltb data_len 4
    then some false
    else recv_diag_get_len buf >>= λ len. some (not (ltb data_len (len + 4)))

unfoldable pub ses_config_is_valid : List ℕ → ℕ → Option Bool
ses_config_is_valid buf data_len =
    if ltb data_len 8 then some false else recv_diag_get_len buf >>= λ len. some (not (ltb len 4))

unfoldable pub ses_config_num_sub_enclosures : List ℕ → Option ℕ
ses_config_num_sub_enclosures buf = get_elem? buf 1 >>= λ b. some (u8 (b + 1))

unfoldable pub ses_config_generation : List ℕ → Option ℕ
ses_config_generation buf = get_uint32 buf 4

-- An enclosure descriptor begins at an offset of the buffer.
unfoldable pub ses_config_enclosure_descriptor_process_identifier : List ℕ → ℕ → Option ℕ
ses_config_enclosure_descriptor_process_identifier buf desc =
    get_elem? buf desc >>= λ b. some (b / 2 ^ 4 % 2 ^ 3)

unfoldable pub ses_config_enclosure_descriptor_num_processes : List ℕ → ℕ → Option ℕ
ses_config_enclosure_descriptor_num_processes buf desc =
    get_elem? buf desc >>= λ b. some (b % 2 ^ 3)

unfoldable pub ses_config_enclosure_descriptor_subenclosure_identifier : List ℕ → ℕ → Option ℕ
ses_config_enclosure_descriptor_subenclosure_identifier buf desc = get_elem? buf (desc + 1)

unfoldable pub ses_config_enclosure_descriptor_num_type_descriptors : List ℕ → ℕ → Option ℕ
ses_config_enclosure_descriptor_num_type_descriptors buf desc = get_elem? buf (desc + 2)

unfoldable pub ses_config_enclosure_descriptor_len : List ℕ → ℕ → Option ℕ
ses_config_enclosure_descriptor_len buf desc = get_elem? buf (desc + 3)

unfoldable pub ses_config_enclosure_descriptor_logical_identifier : List ℕ → ℕ → Option ℕ
ses_config_enclosure_descriptor_logical_identifier buf desc = get_uint64 buf (desc + 4)

unfoldable pub ses_config_enclosure_descriptor_is_valid : List ℕ → ℕ → ℕ → Option Bool
ses_config_enclosure_descriptor_is_valid buf desc data_len =
    if ltb data_len 12
    then some false
    else ses_config_enclosure_descriptor_len buf desc >>= λ len.
        some (not (ltb len 36 || ltb 252 len || ltb data_len len))

-- memcpy of n bytes from offset `from` of the source to offset `to` of s, which must hold them.
unfoldable pub copy_bytes : ℕ → List ℕ → ℕ → List ℕ → ℕ → Option (List ℕ)
copy_bytes zero src from s to = some s
copy_bytes (suc n) src from s to = do
  b ← get_elem? src from
  old ← get_elem? s to
  copy_bytes n src (from + 1) (set s to b) (to + 1)

-- `_ses_str_cpy`: `slen` is decremented in `unsigned`.
unfoldable pub ses_str_cpy : List ℕ → ℕ → ℕ → List ℕ → ℕ → Option (List ℕ)
ses_str_cpy buf src src_len s slen =
    let n = if ltb src_len slen then src_len else u32 (slen + 2 ^ 32 - 1) in
    do copied ← copy_bytes n buf src s 0; old ← get_elem? copied n; some (set copied n 0)

unfoldable pub ses_config_enclosure_descriptor_vendor_identifier :
    List ℕ → ℕ → List ℕ → ℕ → Option (List ℕ)
ses_config_enclosure_descriptor_vendor_identifier buf desc s slen =
    ses_str_cpy buf (desc + 12) 8 s slen

unfoldable pub ses_config_enclosure_descriptor_product_identifier :
    List ℕ → ℕ → List ℕ → ℕ → Option (List ℕ)
ses_config_enclosure_descriptor_product_identifier buf desc s slen =
    ses_str_cpy buf (desc + 20) 16 s slen

unfoldable pub ses_config_enclosure_descriptor_revision_level :
    List ℕ → ℕ → List ℕ → ℕ → Option (List ℕ)
ses_config_enclosure_descriptor_revision_level buf desc s slen =
    ses_str_cpy buf (desc + 36) 4 s slen

unfoldable pub ses_config_enclosure_descriptor_vendor_len : List ℕ → ℕ → Option ℕ
ses_config_enclosure_descriptor_vendor_len buf desc =
    ses_config_enclosure_descriptor_len buf desc >>= λ len. some (u8 (len + 4 + 2 ^ 8 - 40))

unfoldable pub evpd_peripheral_qualifier : List ℕ → Option ℕ
evpd_peripheral_qualifier buf = get_elem? buf 0 >>= λ b. some (b / 2 ^ 5)

unfoldable pub evpd_peripheral_device_type : List ℕ → Option ℕ
evpd_peripheral_device_type buf = get_elem? buf 0 >>= λ b. some (b % 2 ^ 5)

unfoldable pub evpd_page_code : List ℕ → Option ℕ
evpd_page_code buf = get_elem? buf 1

unfoldable pub evpd_page_len : List ℕ → Option ℕ
evpd_page_len buf = do b2 ← get_elem? buf 2; b3 ← get_elem? buf 3; some (b2 * 2 ^ 8 + b3)

unfoldable pub evpd_is_ascii_page : ℕ → Bool
evpd_is_ascii_page page_code = leb 0x01 page_code && leb page_code 0x7F

-- The body of the page begins at an offset of the buffer.
unfoldable pub evpd_ascii_len : List ℕ → ℕ → Option ℕ
evpd_ascii_len buf body = do
  b0 ← get_elem? buf body
  b1 ← get_elem? buf (body + 1)
  some (b0 * 2 ^ 8 + b1)

unfoldable pub evpd_ascii_post_data : List ℕ → ℕ → Option ℕ
evpd_ascii_post_data buf body = evpd_ascii_len buf body >>= λ len. some (body + 2 + len)

unfoldable pub evpd_ascii_post_data_len : List ℕ → ℕ → ℕ → Option ℕ
evpd_ascii_post_data_len buf body full_data_len =
    evpd_ascii_len buf body >>= λ len. some (u32 (full_data_len + 2 ^ 32 - 4 - 2 - len))

unfoldable pub evpd_is_valid : List ℕ → ℕ → Option Bool
evpd_is_valid buf data_len =
    if ltb data_len 4
    then some false
    else evpd_page_len buf >>= λ len. some (not (ltb data_len len))
