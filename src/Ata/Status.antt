-- ===== src/Ata/Status.antt =====
-- The ATA status in sense data, libscsicmd/src/ata.c, and the SMART status in it,
-- libscsicmd/include/ata.h. `none` is a read past the end of the sense data.
use diskscan.Base.{
  ℕ, ◌+◌, ◌*◌, ◌/◌, ◌%◌, ◌^◌, Bool, true, false, ◌&&◌, Option, some, none, List, ◌==◌,
  if◌then◌else◌, ◌>>=◌, bit, flag,
}
use diskscan.Sense.Info.{SenseInfo, AtaStatus}
use diskscan.Sense.{scsi_parse_sense}

-- The status in fixed sense data.
unfoldable pub fixed_status : SenseInfo → AtaStatus
fixed_status i = record {
  error = i.information % 2 ^ 8;
  status = i.information / 2 ^ 8 % 2 ^ 8;
  device = i.information / 2 ^ 16 % 2 ^ 8;
  sector_count = i.information / 2 ^ 24 % 2 ^ 8;
  extend = flag (bit i.cmd_specific 7) * 2 ^ 7;
  lba =
      i.cmd_specific / 2 ^ 8 % 2 ^ 8 * 2 ^ 16
      + i.cmd_specific / 2 ^ 16 % 2 ^ 8 * 2 ^ 8
      + i.cmd_specific / 2 ^ 24 % 2 ^ 8;
}

-- The returned flag with what `*status` holds then; `old` is what it held before.
unfoldable pub ata_status_from_scsi_sense : List ℕ → ℕ → AtaStatus → Option (Bool × AtaStatus)
ata_status_from_scsi_sense sense sense_len old =
    scsi_parse_sense sense sense_len >>= λ (parsed, info). some (
      if parsed && info.ata_status_valid
      then (true, info.ata_status)
      else if info.is_fixed
      then (false, fixed_status info)
      else (false, old))

-- `some smart_ok`, or an inner `none` where it returns false.
unfoldable pub smart_verdict : AtaStatus → Option Bool
smart_verdict s =
    if s.lba / 2 ^ 8 == 0xC24F
    then some true
    else if s.lba / 2 ^ 8 == 0x2CF4
    then some false
    else none

unfoldable pub ata_smart_return_status_result : List ℕ → ℕ → AtaStatus → Option (Option Bool)
ata_smart_return_status_result sense sense_len old =
    ata_status_from_scsi_sense sense sense_len old >>= λ (known, status).
    some (if known then smart_verdict status else none)
