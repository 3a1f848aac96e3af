-- ===== src/Cdb.antt =====
-- The command descriptor blocks of libscsicmd/src/cdb.c. Each builder writes into the caller's
-- buffer and returns it with the length of the command. A narrower parameter cuts its argument, as
-- the call does.
pub mod Request
pub mod Rw
use Prim.Native.Nat.{bit_or}
use diskscan.Base.{
  ℕ, suc, zero, ◌+◌, ◌*◌, ◌/◌, ◌%◌, ◌^◌, ◌-◌, Bool, List, [], ◌∷◌, set, u8, u16, u32, u64, flag,
}
use diskscan.Wire.{set_uint16, set_uint32, set_uint64}

-- `memset(cdb + start, 0, n)`
unfoldable pub zero_bytes : List ℕ → ℕ → ℕ → List ℕ
zero_bytes [] start n = []
zero_bytes (b ∷ bs) (suc start) n = b ∷ zero_bytes bs start n
zero_bytes (b ∷ bs) zero zero = b ∷ bs
zero_bytes (b ∷ bs) zero (suc n) = 0 ∷ zero_bytes bs zero n

unfoldable pub cdb_tur : List ℕ → List ℕ × ℕ
unfolding zero_bytes
cdb_tur cdb = (zero_bytes cdb 0 6, 6)

unfoldable pub cdb_inquiry : List ℕ → Bool → ℕ → ℕ → List ℕ × ℕ
unfolding set_uint16
cdb_inquiry cdb evpd page_code alloc_len =
    let c0 = set cdb 0 0x12 in
    let c1 = set c0 1 (flag evpd) in
    let c2 = set c1 2 (u8 page_code) in let c3 = set_uint16 c2 3 (u16 alloc_len) in (set c3 5 0, 6)

unfoldable pub cdb_read_capacity_10 : List ℕ → List ℕ × ℕ
unfolding zero_bytes
cdb_read_capacity_10 cdb = (zero_bytes (set cdb 0 0x25) 1 9, 10)

unfoldable pub cdb_read_capacity_16 : List ℕ → ℕ → List ℕ × ℕ
unfolding zero_bytes set_uint32
cdb_read_capacity_16 cdb alloc_len =
    let c0 = set cdb 0 0x9e in
    let c1 = set c0 1 0x10 in let c2 = zero_bytes c1 2 14 in (set_uint32 c2 10 (u32 alloc_len), 16)

unfoldable pub cdb_read_10 : List ℕ → Bool → ℕ → ℕ → List ℕ × ℕ
unfolding set_uint16 set_uint32
cdb_read_10 cdb fua lba transfer_length_blocks =
    let c0 = set cdb 0 0x28 in
    let c1 = set c0 1 (flag fua * 2 ^ 3) in
    let c2 = set_uint32 c1 2 (u32 lba) in
    let c3 = set c2 6 0 in let c4 = set_uint16 c3 7 (u16 transfer_length_blocks) in (set c4 9 0, 10)

unfoldable pub cdb_write_10 : List ℕ → Bool → ℕ → ℕ → List ℕ × ℕ
unfolding set_uint16 set_uint32
cdb_write_10 cdb fua lba transfer_length_blocks =
    let c0 = set cdb 0 0x2a in
    let c1 = set c0 1 (flag fua * 2 ^ 3) in
    let c2 = set_uint32 c1 2 (u32 lba) in
    let c3 = set c2 6 0 in let c4 = set_uint16 c3 7 (u16 transfer_length_blocks) in (set c4 9 0, 10)

unfoldable pub cdb_read_16 : List ℕ → Bool → Bool → Bool → ℕ → ℕ → List ℕ × ℕ
unfolding set_uint32 set_uint64
cdb_read_16 cdb fua fua_nv dpo lba transfer_length_blocks =
    let c0 = set cdb 0 0x88 in
    let c1 = set c0 1 (flag dpo * 2 ^ 4 + flag fua * 2 ^ 3 + flag fua_nv * 2) in
    let c2 = set_uint64 c1 2 (u64 lba) in
    let c3 = set_uint32 c2 10 (u32 transfer_length_blocks) in
    let c4 = set c3 14 0 in (set c4 15 0, 16)

unfoldable pub cdb_write_16 : List ℕ → Bool → Bool → Bool → ℕ → ℕ → List ℕ × ℕ
unfolding set_uint32 set_uint64
cdb_write_16 cdb dpo fua fua_nv lba transfer_length_blocks =
    let c0 = set cdb 0 0x8a in
    let c1 = set c0 1 (flag dpo * 2 ^ 4 + flag fua * 2 ^ 3 + flag fua_nv * 2) in
    let c2 = set_uint64 c1 2 (u64 lba) in
    let c3 = set_uint32 c2 10 (u32 transfer_length_blocks) in
    let c4 = set c3 14 0 in (set c4 15 0, 16)

unfoldable pub cdb_log_sense : List ℕ → ℕ → ℕ → ℕ → List ℕ × ℕ
unfolding zero_bytes set_uint16
cdb_log_sense cdb page_code subpage_code alloc_len =
    let c0 = set (zero_bytes cdb 0 10) 0 0x4d in
    let c1 = set c0 2 (2 ^ 6 + u8 page_code % 2 ^ 6) in
    let c2 = set c1 3 (u8 subpage_code) in (set_uint16 c2 7 (u16 alloc_len), 10)

unfoldable pub cdb_receive_diagnostics : List ℕ → Bool → ℕ → ℕ → List ℕ × ℕ
unfolding set_uint16
cdb_receive_diagnostics cdb page_code_valid page_code alloc_len =
    let c0 = set cdb 0 0x1c in
    let c1 = set c0 1 (flag page_code_valid) in
    let c2 = set c1 2 (u8 page_code) in let c3 = set_uint16 c2 3 (u16 alloc_len) in (set c3 5 0, 6)

-- The self test code is the number of the enumeration's member.
unfoldable pub cdb_send_diagnostics : List ℕ → ℕ → ℕ → List ℕ × ℕ
unfolding set_uint16
cdb_send_diagnostics cdb self_test param_len =
    let c0 = set cdb 0 0x1d in
    let c1 = set c0 1 (u8 (self_test * 2 ^ 5)) in
    let c2 = set c1 2 0 in let c3 = set_uint16 c2 3 (u16 param_len) in (set c3 5 0, 6)

-- The page control is the number of the enumeration's member.
unfoldable pub cdb_mode_sense_6 : List ℕ → Bool → ℕ → ℕ → ℕ → ℕ → List ℕ × ℕ
cdb_mode_sense_6 cdb disable_block_descriptor page_control page_code subpage_code alloc_len =
    let c0 = set cdb 0 0x1a in
    let c1 = set c0 1 (flag disable_block_descriptor * 2 ^ 3) in
    let c2 = set c1 2 (u8 (bit_or (page_control * 2 ^ 6) (u8 page_code))) in
    let c3 = set c2 3 (u8 subpage_code) in let c4 = set c3 4 (u8 alloc_len) in (set c4 5 0, 6)

unfoldable pub cdb_mode_sense_10 : List ℕ → Bool → Bool → ℕ → ℕ → ℕ → ℕ → List ℕ × ℕ
unfolding set_uint16
cdb_mode_sense_10 cdb long_lba_accepted disable_block_descriptor page_control page_code subpage_code
      alloc_len =
    let c0 = set cdb 0 0x5a in
    let c1 = set c0 1 (flag long_lba_accepted * 2 ^ 4 + flag disable_block_descriptor * 2 ^ 3) in
    let c2 = set c1 2 (u8 (bit_or (page_control * 2 ^ 6) (u8 page_code))) in
    let c3 = set c2 3 (u8 subpage_code) in
    let c4 = set (set (set c3 4 0) 5 0) 6 0 in
    let c5 = set_uint16 c4 7 (u16 alloc_len) in (set c5 9 0, 10)

-- The address descriptor format is the number of the enumeration's member, below 8.
unfoldable pub cdb_read_defect_data_10 : List ℕ → Bool → Bool → ℕ → ℕ → List ℕ × ℕ
unfolding set_uint16
cdb_read_defect_data_10 cdb plist glist format alloc_len =
    let c0 = set (set cdb 0 0x37) 1 0 in
    let c1 = set c0 2 (u8 (flag plist * 0x10 + flag glist * 0x08 + format)) in
    let c2 = set (set (set (set c1 6 0) 5 0) 4 0) 3 0 in
    let c3 = set_uint16 c2 7 (u16 alloc_len) in (set c3 9 0, 10)

unfoldable pub cdb_read_defect_data_12 : List ℕ → Bool → Bool → ℕ → ℕ → List ℕ × ℕ
unfolding set_uint32
cdb_read_defect_data_12 cdb plist glist format alloc_len =
    let c0 = set cdb 0 0xb7 in
    let c1 = set c0 1 (u8 (flag plist * 0x10 + flag glist * 0x08 + format)) in
    let c2 = set (set (set (set c1 5 0) 4 0) 3 0) 2 0 in
    let c3 = set_uint32 c2 6 (u32 alloc_len) in (set (set c3 10 0) 11 0, 12)
