-- ===== src/Sense.antt =====
-- The sense data parser, libscsicmd/src/parse_sense.c. A read past the end of the buffer is `none`;
-- `some (ok, info)` is the returned flag with what `*info` holds then.
pub mod Info
pub mod Key
pub mod Reads
pub mod Fixed
use diskscan.Base.{
  ℕ, zero, suc, ◌+◌, ◌*◌, ◌/◌, ◌%◌, ◌^◌, Bool, true, false, ◌&&◌, ◌||◌, Option, none, some, List,
  get_elem?, ◌>>=◌, ltb, ◌==◌, if◌then◌else◌, bit,
}
use diskscan.Wire.{get_uint16, get_uint24, get_uint32, get_uint64}
use Info.{
  SenseInfo, AtaStatus, SenseKeySpecific, zero_info, no_sense, recovered_error, not_ready,
  medium_error, hardware_error, illegal_request, unit_attention, copy_aborted, illegal, retry_count,
  progress, copy, overflow,
}

-- The `switch` on the sense key; `none` is its default branch.
unfoldable pub key_specific : ℕ → ℕ → Option SenseKeySpecific
key_specific key x =
    if key == illegal_request
    then some (illegal (bit x 22) (bit x 19) (x / 2 ^ 16 % 8) (x % 2 ^ 16))
    else if key == hardware_error || (key == medium_error || key == recovered_error)
    then some (retry_count (x % 2 ^ 16))
    else if key == not_ready || key == no_sense
    then some (progress (x % 2 ^ 16))
    else if key == copy_aborted
    then some (copy (bit x 21) (bit x 19) (x / 2 ^ 16 % 8) (x % 2 ^ 16))
    else if key == unit_attention
    then some (overflow (bit x 16))
    else none

abbrev pub store_key_specific : SenseInfo → Option SenseKeySpecific → SenseInfo
store_key_specific info none = record info { sense_key_specific_valid = false }
store_key_specific info (some v) = record info {
  sense_key_specific_valid = true;
  sense_key_specific = v;
}

-- `sks` is the offset of the three bytes in the buffer.
unfoldable pub parse_sense_key_specific : List ℕ → ℕ → SenseInfo → Option SenseInfo
parse_sense_key_specific sense sks info = do
  b ← get_elem? sense sks
  if bit b 7
      then (get_uint24 sense sks >>= λ v.
          some (store_key_specific info (key_specific info.sense_key (v % 2 ^ 23))))
      else some (record info { sense_key_specific_valid = false })

unfoldable pub parse_information : List ℕ → SenseInfo → Option SenseInfo
parse_information sense info = do
  b0 ← get_elem? sense 0
  if bit b0 7
      then (get_uint32 sense 3 >>= λ v.
          some (record info { information_valid = true; information = v }))
      else some (record info { information_valid = false })

unfoldable pub parse_vendor_unique : List ℕ → ℕ → SenseInfo → Option SenseInfo
parse_vendor_unique sense sense_len info =
    if ltb sense_len 21
    then some info
    else (get_uint16 sense 20 >>= λ v. some (record info { vendor_unique_error = v }))

-- The body of `parse_sense_fixed` after its check of the length.
unfoldable pub fixed_fields : List ℕ → ℕ → SenseInfo → Option SenseInfo
fixed_fields sense sense_len info = do
  i1 ← parse_information sense info
  b2 ← get_elem? sense 2
  asc ← get_elem? sense 12
  ascq ← get_elem? sense 13
  cmd ← get_uint32 sense 8
  fru ← get_elem? sense 14
  i2 ← parse_sense_key_specific sense 15 (record i1 {
    incorrect_len_indicator = bit b2 5;
    sense_key = b2 % 16;
    asc = asc;
    ascq = ascq;
    cmd_specific_valid = true;
    cmd_specific = cmd;
    fru_code_valid = true;
    fru_code = fru;
  })
  parse_vendor_unique sense sense_len i2

unfoldable pub parse_sense_fixed : List ℕ → ℕ → SenseInfo → Option (Bool × SenseInfo)
parse_sense_fixed sense sense_len info =
    if ltb sense_len 18
    then some (false, info)
    else (fixed_fields sense sense_len info >>= λ i. some (true, i))

-- Case 0x09 of the `switch`, the ATA status return descriptor at `idx`.
unfoldable pub ata_status_return : List ℕ → ℕ → Option AtaStatus
ata_status_return sense idx = do
  b2 ← get_elem? sense (idx + 2)
  b3 ← get_elem? sense (idx + 3)
  b4 ← get_elem? sense (idx + 4)
  b5 ← get_elem? sense (idx + 5)
  b6 ← get_elem? sense (idx + 6)
  b7 ← get_elem? sense (idx + 7)
  b8 ← get_elem? sense (idx + 8)
  b9 ← get_elem? sense (idx + 9)
  b10 ← get_elem? sense (idx + 10)
  b11 ← get_elem? sense (idx + 11)
  b12 ← get_elem? sense (idx + 12)
  b13 ← get_elem? sense (idx + 13)
  some (record {
    extend = b2 % 2;
    error = b3;
    device = b12;
    status = b13;
    sector_count = if bit b2 0 then b4 * 2 ^ 8 + b5 else b4;
    lba =
        if bit b2 0
        then b7 + b6 * 2 ^ 8 + b9 * 2 ^ 16 + b8 * 2 ^ 24 + b11 * 2 ^ 32 + b10 * 2 ^ 40
        else b7 + b9 * 2 ^ 8 + b11 * 2 ^ 16;
  })

-- The `switch` on the type of the descriptor at `idx`. Types that it lists without an action, and
-- those that it does not list, leave the info as it is.
unfoldable pub descriptor : ℕ → ℕ → List ℕ → ℕ → SenseInfo → Option SenseInfo
descriptor desc_type desc_len sense idx info =
    if desc_type == 0x00 && desc_len == 0x0a
    then (do
      b ← get_elem? sense (idx + 2)
      v ← get_uint64 sense (idx + 4)
      some (record info { information_valid = bit b 7; information = v }))
    else if desc_type == 0x01 && desc_len == 0x0a
    then (do
      v ← get_uint64 sense (idx + 4)
      some (record info { cmd_specific_valid = true; cmd_specific = v }))
    else if desc_type == 0x02 && desc_len == 0x06
    then parse_sense_key_specific sense 4 info
    else if desc_type == 0x03 && desc_len == 0x02
    then (do
      b ← get_elem? sense (idx + 3)
      some (record info { fru_code_valid = true; fru_code = b }))
    else if desc_type == 0x05 && desc_len == 0x02
    then (do
      b ← get_elem? sense (idx + 3)
      some (record info { incorrect_len_indicator = bit b 5 }))
    else if desc_type == 0x09 && desc_len == 0x0c
    then (do
      s ← ata_status_return sense idx
      some (record info { ata_status_valid = true; ata_status = s }))
    else if desc_type == 0x80 && desc_len == 0x02
    then (do v ← get_uint16 sense (idx + 2); some (record info { vendor_unique_error = v }))
    else some info

-- The loop over the descriptors, with fuel; a descriptor takes at least two bytes.
unfoldable pub descriptors : ℕ → List ℕ → ℕ → ℕ → SenseInfo → Option SenseInfo
descriptors zero sense sense_len idx info = none
descriptors (suc fuel) sense sense_len idx info = elim (ltb idx sense_len) [
  | false ↦ some info
  | true ↦ do
    desc_type ← get_elem? sense idx
    desc_len ← get_elem? sense (idx + 1)
    elim (ltb sense_len (idx + desc_len + 2)) [
      | true ↦ some info
      | false ↦ descriptor desc_type desc_len sense idx info >>= λ i.
          descriptors fuel sense sense_len (idx + (desc_len + 2)) i
    ]
]

-- `sense_len` is cut to what the header announces.
unfoldable pub parse_sense_descriptor : List ℕ → ℕ → SenseInfo → Option (Bool × SenseInfo)
parse_sense_descriptor sense sense_len info = if ltb sense_len 8 then some (false, info) else (do
  b1 ← get_elem? sense 1
  b2 ← get_elem? sense 2
  b3 ← get_elem? sense 3
  b7 ← get_elem? sense 7
  i ←
      descriptors (sense_len + 1) sense (if ltb (b7 + 8) sense_len then b7 + 8 else sense_len) 8
        (record info { sense_key = b1 % 16; asc = b2; ascq = b3 })
  some (true, i))

unfoldable pub parse_by_code : ℕ → List ℕ → ℕ → Option (Bool × SenseInfo)
parse_by_code code sense sense_len =
    if code == 0x70
    then parse_sense_fixed sense sense_len (record zero_info { is_fixed = true; is_current = true })
    else if code == 0x71
    then parse_sense_fixed sense sense_len (record zero_info { is_fixed = true })
    else if code == 0x72
    then parse_sense_descriptor sense sense_len (record zero_info { is_current = true })
    else if code == 0x73
    then parse_sense_descriptor sense sense_len zero_info
    else some (false, zero_info)

-- `sense_len` is not negative.
unfoldable pub scsi_parse_sense : List ℕ → ℕ → Option (Bool × SenseInfo)
scsi_parse_sense sense sense_len =
    get_elem? sense 0 >>= λ b0. parse_by_code (b0 % 128) sense sense_len
