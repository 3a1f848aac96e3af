-- ===== src/Report/Json.antt =====
-- The writers of lib/data.c. What other code gives is a parameter: the C library's conversion of
-- numbers, the texts of the machine, of the time and of the histogram, and the conclusion's name.
use diskscan.Base.{
  ℕ, ◌+◌, ◌*◌, ◌/◌, Bool, ◌&&◌, Option, some, none, List, [], ◌∷◌, ◌++◌, length, take, replicate,
  ltb, leb, if◌then◌else◌, codes,
}
use diskscan.Sense.Info.{SenseInfo}
use diskscan.Device.Types.{
  ResultData, data_full, data_partial, data_none, ResultError, error_none, error_corrected,
  error_uncorrected, error_need_retry, error_fatal, error_unknown,
}
use diskscan.Scan.Types.{LogEvent, Latency}
use diskscan.Report.Hex.{buf_to_hex}

unfoldable pub result_data_to_name : ResultData → List ℕ
result_data_to_name data_full = codes "data_full"
result_data_to_name data_partial = codes "data_partial"
result_data_to_name data_none = codes "data_none"

unfoldable pub result_error_to_name : ResultError → List ℕ
result_error_to_name error_none = codes "error_none"
result_error_to_name error_corrected = codes "error_corrected"
result_error_to_name error_uncorrected = codes "error_uncorrected"
result_error_to_name error_need_retry = codes "error_need_retry"
result_error_to_name error_fatal = codes "error_fatal"
result_error_to_name error_unknown = codes "error_unknown"

unfoldable pub add_indent : ℕ → List ℕ
add_indent indent = replicate (indent * 4) 32

-- `"name": "text"`
abbrev pub quoted : List ℕ → List ℕ → List ℕ
quoted name text = codes "\"" ++ name ++ codes "\": \"" ++ text ++ codes "\""

-- The five texts of `system_identifier_t`.
pub record SystemIdentifier : Type 0 where
  pub system : List ℕ
  pub chassis : List ℕ
  pub baseboard : List ℕ
  pub mac : List ℕ
  pub os : List ℕ

-- Into a buffer of `buf_len` characters, which is left with "{}" if the text is too long.
unfoldable pub system_identifier_to_json : SystemIdentifier → ℕ → List ℕ
system_identifier_to_json system_id buf_len =
    let text =
      codes "{ "
      ++ quoted (codes "System") system_id.system
      ++ codes ", "
      ++ quoted (codes "Chassis") system_id.chassis
      ++ codes ", "
      ++ quoted (codes "BaseBoard") system_id.baseboard
      ++ codes ", "
      ++ quoted (codes "Mac") system_id.mac
      ++ codes ", "
      ++ quoted (codes "OS") system_id.os
      ++ codes " }" in
    if leb buf_len (length text) then codes "{}" else text

-- `system_identifier_read` gives `none` where it fails.
unfoldable pub system_id_output : Option SystemIdentifier → List ℕ
system_id_output none = codes "{}"
system_id_output (some system_id) = system_identifier_to_json system_id 2048

-- The fields of `disk_t` that `disk_output` writes.
pub record DiskInfo : Type 0 where
  pub vendor : List ℕ
  pub model : List ℕ
  pub fw_rev : List ℕ
  pub serial : List ℕ
  pub num_bytes : ℕ
  pub sector_size : ℕ
  pub is_ata : Bool
  pub ata_buf : List ℕ
  pub ata_buf_len : ℕ

module _ (dec : ℕ → ℕ → List ℕ) where
  -- `sizeof(sense)` is the size of a pointer, 8 bytes, so that the dump has 17 characters.
  unfoldable pub sense_info_to_json : SenseInfo → List ℕ → List ℕ
  sense_info_to_json info sense = take 2047 (
      codes "{\"SenseKey\": "
      ++ dec 0 info.sense_key
      ++ codes ", \"Asc\": "
      ++ dec 0 info.asc
      ++ codes ", \"Ascq\": "
      ++ dec 0 info.ascq
      ++ codes ", \"FruCode\": "
      ++ dec 0 (if info.fru_code_valid then info.fru_code else 0)
      ++ codes ", \"VendorCode\": "
      ++ dec 0 info.vendor_unique_error
      ++ codes ", "
      ++ quoted (codes "Hex") (buf_to_hex sense (8 * 2 + 1))
      ++ codes "}")

  unfoldable pub disk_output : DiskInfo → ℕ → List ℕ
  disk_output disk indent =
      let pad = add_indent indent in
      codes "{\n"
      ++ pad
      ++ quoted (codes "Vendor") disk.vendor
      ++ codes ",\n"
      ++ pad
      ++ quoted (codes "Model") disk.model
      ++ codes ",\n"
      ++ pad
      ++ quoted (codes "FwRev") disk.fw_rev
      ++ codes ",\n"
      ++ pad
      ++ quoted (codes "Serial") disk.serial
      ++ codes ",\n"
      ++ pad
      ++ codes "\"NumSectors\": "
      ++ dec 0 (disk.num_bytes / disk.sector_size)
      ++ codes ",\n"
      ++ pad
      ++ codes "\"SectorSize\": "
      ++ dec 0 disk.sector_size
      ++ codes ",\n"
      ++ (if disk.is_ata && ltb 0 disk.ata_buf_len
          then pad
            ++ quoted (codes "AtaIdentifyRaw")
                (buf_to_hex (take disk.ata_buf_len disk.ata_buf) (512 * 2 + 1))
            ++ codes "\n"
          else [])
      ++ pad
      ++ codes "}"

  unfoldable pub data_log_event : ℕ → LogEvent → List ℕ
  data_log_event indent e =
      add_indent indent
      ++ codes "{\"LBA\": "
      ++ dec 16 e.lba
      ++ codes ", \"Len\": "
      ++ dec 8 e.len
      ++ codes ", \"LatencyNSec\": "
      ++ dec 8 e.t_nsec
      ++ codes ", "
      ++ quoted (codes "Data") (result_data_to_name e.io_res.result)
      ++ codes ", "
      ++ quoted (codes "Error") (result_error_to_name e.io_res.error)
      ++ codes ", \"Sense\": "
      ++ sense_info_to_json e.io_res.info e.io_res.sense
      ++ codes "}"

  unfoldable pub latency_entry : ℕ → Latency → List ℕ
  latency_entry indent l =
      add_indent (indent + 1)
      ++ codes "{\"StartSector\": "
      ++ dec 16 l.start_sector
      ++ codes ", \"EndSector\": "
      ++ dec 16 l.end_sector
      ++ codes ", \"LatencyMinMsec\": "
      ++ dec 8 l.latency_min_msec
      ++ codes ", \"LatencyMaxMsec\": "
      ++ dec 8 l.latency_max_msec
      ++ codes ", \"LatencyMedianMsec\": "
      ++ dec 8 l.latency_median_msec
      ++ codes "}"

  -- The loop from entry i on.
  unfoldable pub latency_entries : ℕ → List Latency → ℕ → List ℕ
  latency_entries i [] indent = []
  latency_entries i (l ∷ ls) indent =
      (if ltb 0 i then codes ",\n" else [])
      ++ latency_entry indent l
      ++ latency_entries (i + 1) ls indent

  unfoldable pub latency_output : List Latency → ℕ → List ℕ
  latency_output latency indent =
      add_indent indent
      ++ codes "\"Latencies\": [\n"
      ++ latency_entries 0 latency indent
      ++ codes "\n"
      ++ add_indent indent
      ++ codes "],\n"
