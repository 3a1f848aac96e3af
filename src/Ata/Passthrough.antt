-- ===== src/Ata/Passthrough.antt =====
-- The ATA pass-through commands of libscsicmd/include/ata.h. Each builder writes into the caller's
-- buffer and returns it with the length of the command.
use diskscan.Base.{ℕ, ◌+◌, ◌*◌, ◌/◌, ◌%◌, ◌^◌, Bool, true, List, set, u8, u16, u32, u64, flag}

-- `passthrough_protocol_e`, by its numbers: those that the commands below use.
abbrev pub proto_non_data : ℕ
proto_non_data = 3

abbrev pub proto_pio_data_in : ℕ
proto_pio_data_in = 4

abbrev pub proto_dma : ℕ
proto_dma = 6

-- `ATA_PT_LEN_SPEC_SECTOR_COUNT`
abbrev pub len_spec_sector_count : ℕ
len_spec_sector_count = 2

unfoldable pub ata_passthrough_flags_2 : ℕ → ℕ → ℕ → ℕ → ℕ → ℕ
ata_passthrough_flags_2 offline ck_cond direction_in transfer_block len_spec =
    offline % 4 * 2 ^ 6
    + ck_cond % 2 * 2 ^ 5
    + direction_in % 2 * 2 ^ 3
    + transfer_block % 2 * 2 ^ 2
    + len_spec % 4

unfoldable pub cdb_ata_passthrough_12 : List ℕ → ℕ → ℕ → ℕ → ℕ → ℕ → Bool → ℕ → List ℕ × ℕ
cdb_ata_passthrough_12 cdb command feature lba sector_count protocol dir_in ck_cond =
    let c0 = set cdb 0 0xA1 in
    let c1 = set c0 1 (u8 (protocol * 2)) in
    let c2 = set c1 2 (ata_passthrough_flags_2 0 ck_cond (flag dir_in) 1 len_spec_sector_count) in
    let c3 = set c2 3 (u8 feature) in
    let c4 = set c3 4 (u8 sector_count) in
    let c5 = set c4 5 (u32 lba % 2 ^ 8) in
    let c6 = set c5 6 (u32 lba / 2 ^ 8 % 2 ^ 8) in
    let c7 = set c6 7 (u32 lba / 2 ^ 16 % 2 ^ 8) in
    let c8 = set c7 8 (u32 lba / 2 ^ 24 % 2 ^ 4) in
    let c9 = set c8 9 (u8 command) in (set (set c9 11 0) 10 0, 12)

unfoldable pub cdb_ata_passthrough_16 : List ℕ → ℕ → ℕ → ℕ → ℕ → ℕ → Bool → ℕ → ℕ → List ℕ × ℕ
cdb_ata_passthrough_16 cdb command feature lba sector_count protocol dir_in ck_cond device =
    let c0 = set cdb 0 0x85 in
    let c1 = set c0 1 (u8 (protocol * 2 + 1)) in
    let c2 = set c1 2 (ata_passthrough_flags_2 0 ck_cond (flag dir_in) 1 len_spec_sector_count) in
    let c3 = set c2 3 (u16 feature / 2 ^ 8) in
    let c4 = set c3 4 (feature % 2 ^ 8) in
    let c5 = set c4 5 (u16 sector_count / 2 ^ 8) in
    let c6 = set c5 6 (sector_count % 2 ^ 8) in
    let c7 = set c6 7 (u64 lba / 2 ^ 24 % 2 ^ 8) in
    let c8 = set c7 8 (u64 lba % 2 ^ 8) in
    let c9 = set c8 9 (u64 lba / 2 ^ 32 % 2 ^ 8) in
    let c10 = set c9 10 (u64 lba / 2 ^ 8 % 2 ^ 8) in
    let c11 = set c10 11 (u64 lba / 2 ^ 40 % 2 ^ 8) in
    let c12 = set c11 12 (u64 lba / 2 ^ 16 % 2 ^ 8) in
    let c13 = set c12 13 (u8 device) in let c14 = set c13 14 (u8 command) in (set c14 15 0, 16)

unfoldable pub cdb_ata_identify : List ℕ → List ℕ × ℕ
cdb_ata_identify cdb = cdb_ata_passthrough_12 cdb 0xEC 0x00 0x0 1 proto_dma true 0

unfoldable pub cdb_ata_identify_16 : List ℕ → List ℕ × ℕ
cdb_ata_identify_16 cdb = cdb_ata_passthrough_16 cdb 0xEC 0x00 0x0 1 proto_dma true 0 0

unfoldable pub cdb_ata_smart_return_status : List ℕ → List ℕ × ℕ
cdb_ata_smart_return_status cdb =
    cdb_ata_passthrough_12 cdb 0xB0 0xDA (0xC24F * 2 ^ 8) 1 proto_dma true 1

unfoldable pub cdb_ata_smart_read_data : List ℕ → List ℕ × ℕ
cdb_ata_smart_read_data cdb =
    cdb_ata_passthrough_12 cdb 0xB0 0xD0 (0xC24F * 2 ^ 8) 1 proto_dma true 0

unfoldable pub cdb_ata_smart_read_log : List ℕ → ℕ → ℕ → List ℕ × ℕ
cdb_ata_smart_read_log cdb log_addr num_pages =
    cdb_ata_passthrough_12 cdb 0xB0 0xD5 (0xC24F * 2 ^ 8 + u8 log_addr) num_pages proto_pio_data_in
      true 0

unfoldable pub cdb_ata_smart_read_threshold : List ℕ → List ℕ × ℕ
cdb_ata_smart_read_threshold cdb =
    cdb_ata_passthrough_12 cdb 0xB0 0xD1 (0xC24F * 2 ^ 8) 1 proto_dma true 0

unfoldable pub cdb_ata_check_power_mode : List ℕ → List ℕ × ℕ
cdb_ata_check_power_mode cdb = cdb_ata_passthrough_12 cdb 0xE5 0 0 0 proto_non_data true 1

-- The shift by 24 is in an `int`, of which it moves the high byte of the page number out.
unfoldable pub log_ext_lba : ℕ → ℕ → ℕ
log_ext_lba page_number log_address = page_number % 2 ^ 8 * 2 ^ 8 + u8 log_address

unfoldable pub cdb_ata_read_log_ext : List ℕ → ℕ → ℕ → ℕ → List ℕ × ℕ
cdb_ata_read_log_ext cdb block_count page_number log_address =
    cdb_ata_passthrough_16 cdb 0x2F 0 (log_ext_lba page_number log_address) block_count
      proto_pio_data_in true 0 0
