-- ===== src/Sense/Info.antt =====
-- `sense_info_t`, `ata_status_t` and the sense keys: libscsicmd/include/scsicmd.h and
-- libscsicmd/include/sense_key_list.h.
use diskscan.Base.{ℕ, Bool, false}

-- The sense keys by their numbers.
abbrev pub no_sense : ℕ
no_sense = 0x0

abbrev pub recovered_error : ℕ
recovered_error = 0x1

abbrev pub not_ready : ℕ
not_ready = 0x2

abbrev pub medium_error : ℕ
medium_error = 0x3

abbrev pub hardware_error : ℕ
hardware_error = 0x4

abbrev pub illegal_request : ℕ
illegal_request = 0x5

abbrev pub unit_attention : ℕ
unit_attention = 0x6

abbrev pub copy_aborted : ℕ
copy_aborted = 0xa

abbrev pub aborted_command : ℕ
aborted_command = 0xb

pub record AtaStatus : Type 0 where
  pub extend : ℕ
  pub error : ℕ
  pub device : ℕ
  pub status : ℕ
  pub sector_count : ℕ
  pub lba : ℕ

-- The union `sense_key_specific`; `unset` is its state after `memset`. The source keeps the
-- progress as the double `n / 65536.0`; here it is the n.
pub data SenseKeySpecific : Type 0 where
  unset : SenseKeySpecific
  illegal : Bool → Bool → ℕ → ℕ → SenseKeySpecific
  retry_count : ℕ → SenseKeySpecific
  progress : ℕ → SenseKeySpecific
  copy : Bool → Bool → ℕ → ℕ → SenseKeySpecific
  overflow : Bool → SenseKeySpecific

pub record SenseInfo : Type 0 where
  pub is_fixed : Bool
  pub is_current : Bool
  pub sense_key : ℕ
  pub asc : ℕ
  pub ascq : ℕ
  pub information_valid : Bool
  pub information : ℕ
  pub cmd_specific_valid : Bool
  pub cmd_specific : ℕ
  pub sense_key_specific_valid : Bool
  pub sense_key_specific : SenseKeySpecific
  pub fru_code_valid : Bool
  pub fru_code : ℕ
  pub vendor_unique_error : ℕ
  pub incorrect_len_indicator : Bool
  pub ata_status_valid : Bool
  pub ata_status : AtaStatus

-- `memset(info, 0, sizeof(*info))`
abbrev pub zero_status : AtaStatus
zero_status = record { extend = 0; error = 0; device = 0; status = 0; sector_count = 0; lba = 0 }

abbrev pub zero_info : SenseInfo
zero_info = record {
  is_fixed = false;
  is_current = false;
  sense_key = 0;
  asc = 0;
  ascq = 0;
  information_valid = false;
  information = 0;
  cmd_specific_valid = false;
  cmd_specific = 0;
  sense_key_specific_valid = false;
  sense_key_specific = unset;
  fru_code_valid = false;
  fru_code = 0;
  vendor_unique_error = 0;
  incorrect_len_indicator = false;
  ata_status_valid = false;
  ata_status = zero_status;
}
