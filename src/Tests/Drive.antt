-- ===== src/Tests/Drive.antt =====
-- The Linux device layer (arch/arch-linux.c) at concrete values.
use diskscan.Base.{
  ℕ, ◌^◌, ◌+◌, ◌*◌, ◌≡◌, ◌↔◌, refl, Bool, true, false, some, [], ◌∷◌, replicate, arith,
}
use diskscan.Wire.{get_uint32}
use diskscan.Cdb.Request.{read, write, decode}
use diskscan.Sense.{
  parse_sense_key_specific, parse_information, parse_vendor_unique, fixed_fields, parse_sense_fixed,
  parse_by_code, scsi_parse_sense,
}
use diskscan.Sense.Info.{SenseInfo, zero_info}
use diskscan.Device.Types.{
  DiskDev, SgHeader, SgReply, data_partial, error_none, error_unknown, error_uncorrected,
}
use diskscan.Device.{
  sg_result, sense_to_error, transferred, read_header, write_header, disk_dev_read_cap, sg_ioctl,
  capacity_10_header, SgResult,
}
use diskscan.Device.Errors.{sg_result-error}
use diskscan.Device.Requests.{requests_exact, requests_alias, write_header-zeros}
use diskscan.Cdb.{zero_bytes, cdb_read_capacity_10}
use diskscan.Capacity.{parse_read_capacity_10}

abbrev disk : DiskDev
disk = record { sector_size = 512 }

-- An aborted transfer of 1024 bytes, half of them done, with the sense of a medium error.
abbrev half_read : SgReply
half_read = record {
  failed = false;
  dxfer = [];
  resid = 512;
  sb_len_wr = 18;
  status = 2;
  sbp = 0x70 ∷ 0 ∷ 0x03 ∷ replicate 125 0;
}

abbrev half_info : SenseInfo
half_info = record zero_info {
  is_fixed = true;
  is_current = true;
  sense_key = 3;
  cmd_specific_valid = true;
  fru_code_valid = true;
}

abbrev half_result : SgResult
half_result = record {
  ok = true;
  buf = [];
  buf_read = 512;
  sense_read = 18;
  io_res = record {
    result = data_partial;
    error = error_uncorrected;
    info = half_info;
    sense = 0x70 ∷ 0 ∷ 0x03 ∷ replicate 15 0;
  };
}

half_runs : sg_result 1024 half_read ≡ some half_result
unfolding sg_result transferred sense_to_error scsi_parse_sense parse_by_code parse_sense_fixed
    fixed_fields parse_information parse_sense_key_specific parse_vendor_unique get_uint32
half_runs = refl

sg_result-error_example :
    (parsed : Bool) × (info : SenseInfo) × (scsi_parse_sense half_read.sbp 18 ≡ some (parsed, info))
    × ((half_result.io_res.error ≡ error_unknown) ↔ (parsed ≡ false))
    × ((half_result.io_res.error ≡ error_none) ↔ ((parsed ≡ true) × (info.sense_key ≡ 0)))
sg_result-error_example = sg_result-error 1024 half_read (omega arith) half_runs

requests_exact_example :
    (decode (read_header disk (1000 * 512) (128 * 512) []).cdb ≡ some (read 1000 128))
    × (decode (write_header disk (1000 * 512) (128 * 512) []).cdb ≡ some (write 1000 128))
requests_exact_example = requests_exact disk 1000 128 [] (omega arith) (omega arith) (omega arith)

requests_alias_example :
    (read_header disk (0 + 2 ^ 32 * 512) 512 [] ≡ read_header disk 0 512 [])
    × (write_header disk (0 + 2 ^ 32 * 512) 512 [] ≡ write_header disk 0 512 [])
requests_alias_example = requests_alias disk 0 512 [] (omega arith)

write_header-zeros_example : (write_header disk 0 4 (1 ∷ 2 ∷ 3 ∷ 4 ∷ [])).dxfer ≡ replicate 4 0
write_header-zeros_example = write_header-zeros disk 0 4 (1 ∷ 2 ∷ 3 ∷ 4 ∷ []) (omega arith)

-- 256 sectors of 512 bytes.
abbrev small : SgReply
small = record {
  failed = false;
  resid = 504;
  sb_len_wr = 0;
  status = 0;
  sbp = [];
  dxfer = 0 ∷ 0 ∷ 0 ∷ 255 ∷ 0 ∷ 0 ∷ 2 ∷ 0 ∷ replicate 504 0;
}

abbrev small_kernel : ℕ → SgHeader → SgReply × ℕ
small_kernel k h = (small, k + 1)

-- The last address times 512, one sector short.
short_size : disk_dev_read_cap small_kernel 0 ≡ some (some (255 * 512, 512), 1)
unfolding disk_dev_read_cap sg_ioctl sg_result transferred capacity_10_header cdb_read_capacity_10
    zero_bytes parse_read_capacity_10 get_uint32
short_size = refl
