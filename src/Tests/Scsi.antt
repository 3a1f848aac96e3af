-- ===== src/Tests/Scsi.antt =====
-- Command blocks and sense data of libscsicmd/src at concrete values.
use diskscan.Base.{
  ℕ, ◌%◌, ◌^◌, ◌+◌, ◌≡◌, refl, true, false, some, none, List, ◌∷◌, replicate, arith, inl, inr, ◌==◌,
  bit,
}
use diskscan.Wire.{get_uint32, get_uint64, set_uint64}
use diskscan.Wire.Roundtrip.{get_uint64-set_uint64}
use diskscan.Cdb.{cdb_read_10, cdb_write_10, cdb_read_16, cdb_write_16}
use diskscan.Cdb.Request.{read, write, decode}
use diskscan.Cdb.Rw.{decode-rw_10, decode-rw_16}
use diskscan.Sense.Info.{SenseInfo, zero_info}
use diskscan.Sense.{
  parse_sense_key_specific, parse_information, parse_vendor_unique, fixed_fields, parse_sense_fixed,
  parse_by_code, scsi_parse_sense,
}
use diskscan.Sense.Fixed.{
  scsi_parse_sense-accepts, scsi_parse_sense_fixed_fields, scsi_parse_sense_overrun,
}

-- A current medium error, 11h/00h, of 18 bytes in a buffer of 32.
abbrev medium : List ℕ
medium =
    0x70 ∷ 0 ∷ 0x03 ∷ 0 ∷ 0 ∷ 0 ∷ 0 ∷ 10 ∷ 0 ∷ 0 ∷ 0 ∷ 0 ∷ 0x11 ∷ 0 ∷ 0 ∷ 0 ∷ 0 ∷ 0 ∷ replicate 14 0

abbrev medium_info : SenseInfo
medium_info = record zero_info {
  is_fixed = true;
  is_current = true;
  sense_key = 3;
  asc = 0x11;
  cmd_specific_valid = true;
  fru_code_valid = true;
}

parse_medium : scsi_parse_sense medium 18 ≡ some (true, medium_info)
unfolding scsi_parse_sense parse_by_code parse_sense_fixed fixed_fields parse_information
    parse_sense_key_specific parse_vendor_unique get_uint32
parse_medium = refl

get_uint64-set_uint64_example :
    get_uint64 (set_uint64 (replicate 16 0) 2 (2 ^ 64 + 258)) 2 ≡ some 258
get_uint64-set_uint64_example =
    get_uint64-set_uint64 (replicate 16 0) 2 (2 ^ 64 + 258) (omega arith)

decode-rw_10_example :
    (decode (cdb_read_10 (replicate 32 0xff) false (2 ^ 32 + 7) 128).0 ≡ some (read 7 128))
    × (decode (cdb_write_10 (replicate 32 0xff) false (2 ^ 32 + 7) 128).0 ≡ some (write 7 128))
decode-rw_10_example = decode-rw_10 (replicate 32 0xff) false (2 ^ 32 + 7) 128 (omega arith)

decode-rw_16_example :
    (decode (cdb_read_16 (replicate 32 0xff) true false true (2 ^ 32 + 7) 128).0
      ≡ some (read (2 ^ 32 + 7) 128))
    × (decode (cdb_write_16 (replicate 32 0xff) true true false (2 ^ 32 + 7) 128).0
        ≡ some (write (2 ^ 32 + 7) 128))
decode-rw_16_example =
    decode-rw_16 (replicate 32 0xff) true false true (2 ^ 32 + 7) 128 (omega arith)

scsi_parse_sense-accepts_example :
    (info : SenseInfo) × (scsi_parse_sense medium 18 ≡ some (true, info))
scsi_parse_sense-accepts_example = scsi_parse_sense-accepts medium 18 0x70 (omega arith) refl

scsi_parse_sense_fixed_fields_example :
    (medium_info.sense_key ≡ 3 % 16)
    × (medium_info.asc ≡ 0x11)
    × (medium_info.ascq ≡ 0)
    × (medium_info.information_valid ≡ bit 0x70 7)
    × (medium_info.is_current ≡ (0x70 % 128 == 0x70))
scsi_parse_sense_fixed_fields_example =
    scsi_parse_sense_fixed_fields medium 18 0x70 3 0x11 0 refl refl refl refl (inl refl)
      parse_medium

scsi_parse_sense_overrun_example : scsi_parse_sense (0x71 ∷ replicate 20 0) 21 ≡ none
scsi_parse_sense_overrun_example =
    scsi_parse_sense_overrun (0x71 ∷ replicate 20 0) 0x71 refl refl (inr refl)
