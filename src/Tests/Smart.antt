-- ===== src/Tests/Smart.antt =====
-- The SMART functions of libscsicmd and lib/disk.c at concrete values.
use diskscan.Base.{
  ℕ, ◌+◌, ◌*◌, ◌^◌, ◌%◌, ◌<◌, ◌≡◌, ◌↔◌, refl, true, some, none, Option, List, [], ◌∷◌, ◌++◌, length,
  replicate, arith, inl, ◌==◌,
}
use diskscan.Sense.Info.{zero_status}
use diskscan.Device.Types.{SgHeader, SgReply}
use diskscan.Device.{sg_ioctl, sg_failed}
use diskscan.Ata.{SmartAttr, ata_checksum_verify, ata_parse_ata_smart_read_data, raw_value}
use diskscan.Ata.Checksum.{total, ata_checksum_verify_sum}
use diskscan.Ata.Attributes.{entries, stored, ata_parse_ata_smart_read_data_lem, raw_value_lem}
use diskscan.Ata.Passthrough.{cdb_ata_passthrough_12, cdb_ata_passthrough_16}
use diskscan.Ata.Registers.{registers, registers_12, registers_16, passthrough_registers}
use diskscan.Ata.Status.{ata_smart_return_status_result}
use diskscan.Ata.FixedSense.{smart_status_fixed}
use diskscan.Ata.Lookup.{SmartAttrType, SmartAttrInfo}
use diskscan.Monitor.{AtaState, new_attrs, disk_ata_monitor, disk_smart_attributes, disk_dev_cdb_in}
use diskscan.Monitor.Latch.{Later, disk_ata_monitor_latch}

-- A page with the one attribute 5, of raw value 3, and a right checksum.
abbrev page : List ℕ
page = 16 ∷ 0 ∷ 5 ∷ 0x33 ∷ 0 ∷ 100 ∷ 100 ∷ 3 ∷ 0 ∷ 0 ∷ 0 ∷ 0 ∷ 0 ∷ 0 ∷ replicate 497 0 ++ 237 ∷ []

page-length : length page ≡ 512
page-length = refl

ata_checksum_verify_sum_example : ata_checksum_verify page ≡ some (total page % 2 ^ 8 == 0)
ata_checksum_verify_sum_example = ata_checksum_verify_sum page page-length refl (omega arith)

ata_parse_ata_smart_read_data_lem_example :
    (j : ℕ) × (attrs' : List SmartAttr) × (ata_parse_ata_smart_read_data page new_attrs 30
      ≡ some (some (j, attrs')))
    × (j ≡ length (entries 30 0 page))
    × (length attrs' ≡ 30)
    × (stored j attrs' ≡ entries 30 0 page)
ata_parse_ata_smart_read_data_lem_example =
    ata_parse_ata_smart_read_data_lem page new_attrs 30 page-length (omega arith)
      ata_checksum_verify_sum_example

raw_value_lem_example :
    (raw_value 1 0 0 128 7 0 ≡ 1 + 0 * 2 ^ 8 + 0 * 2 ^ 16 + 128 * 2 ^ 24 + 7 * 2 ^ 32 + 0 * 2 ^ 40)
    ↔ (128 < 128)
raw_value_lem_example =
    raw_value_lem 1 0 0 128 7 0 (omega arith) (omega arith) (omega arith) (omega arith)
      (omega arith) (omega arith)

passthrough_registers_example :
    (registers_12 (cdb_ata_passthrough_12 (replicate 32 0xff) 0xB0 0xDA 0xC24F00 1 6 true 1).0
      ≡ some (registers 0xA1 6 0xB0 0xDA 0xC24F00 1))
    × (registers_16 (cdb_ata_passthrough_16 (replicate 32 0xff) 0xB0 0xDA 0xC24F00 1 6 true 1 0).0
        ≡ some (registers 0x85 6 0xB0 0xDA 0xC24F00 1))
passthrough_registers_example =
    passthrough_registers (replicate 32 0xff) 0xB0 0xDA 0xC24F00 1 6 1 0 true (omega arith)

-- Fixed sense data of an ATA pass-through command, 00h/1Dh, with the address of a good status.
abbrev sense : List ℕ
sense = 0x70 ∷ 0 ∷ 0x01 ∷ 0x50 ∷ 0 ∷ 0 ∷ 1 ∷ 10 ∷ 0 ∷ 0 ∷ 0x4f ∷ 0xc2 ∷ 0 ∷ 0x1d ∷ replicate 114 0

smart_status_fixed_example : ata_smart_return_status_result sense 18 zero_status ≡ some none
smart_status_fixed_example =
    smart_status_fixed sense 18 0x70 zero_status (omega arith) refl (inl refl)

-- A kernel that refuses every request.
abbrev refuse : ℕ → SgHeader → SgReply × ℕ
refuse k header = (
  record { failed = true; dxfer = []; sbp = replicate 128 0; resid = 0; sb_len_wr = 0; status = 0 },
  k + 1,
)

abbrev no_table : SmartAttrType → Option SmartAttrInfo
no_table t = none

abbrev tripped : AtaState
tripped = record {
  is_smart_tripped = true;
  smart = new_attrs;
  smart_num = 0;
  last_temp = 30;
  last_reallocs = 4;
  last_pending_reallocs = 0;
  last_crc_errors = 0;
}

refused : disk_ata_monitor refuse no_table 1 tripped 0 ≡ some (tripped, 1)
unfolding disk_ata_monitor disk_smart_attributes disk_dev_cdb_in sg_ioctl sg_failed
refused = refl

disk_ata_monitor_latch_example : Later tripped tripped
disk_ata_monitor_latch_example = disk_ata_monitor_latch refuse no_table 1 tripped 0 refused
