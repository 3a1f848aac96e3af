-- ===== src/Sense/Fixed.antt =====
-- Which sense data libscsicmd/src/parse_sense.c accepts, and what it takes from the fixed format.
use diskscan.Base.{
  ℕ, ◌+◌, ◌%◌, ◌≤◌, ◌≡◌, List, length, arith, Bool, true, some, none, leb, ◌==◌, bit, ◌||◌, ◌&&◌,
  get_elem?, ◌⊎◌, get_elem?-eq-none, bind-eq-none, IsDefined-value,
}
use diskscan.Wire.{get_uint32, get_uint16}
use diskscan.Sense.Info.{SenseInfo, zero_info}
use diskscan.Sense.Reads.{scsi_parse_sense-IsDefined}
use diskscan.Sense.{
  fixed_fields, parse_sense_fixed, parse_sense_descriptor, parse_vendor_unique, parse_information,
  parse_sense_key_specific, parse_by_code, scsi_parse_sense,
}

-- What SPC asks of sense data: a response code of the two formats, and room for the part that each
-- format always has.
abbrev pub is_sense_data : ℕ → ℕ → Bool
is_sense_data code sense_len =
    ((code == 0x70 || code == 0x71) && leb 18 sense_len)
    || ((code == 0x72 || code == 0x73) && leb 8 sense_len)

flag-is_sense_data :
    (sense : List ℕ) (sense_len b0 : ℕ) {ok : Bool} {info : SenseInfo}
    → get_elem? sense 0 ≡ some b0
    → scsi_parse_sense sense sense_len ≡ some (ok, info)
    → ok ≡ is_sense_data (b0 % 128) sense_len
unfolding scsi_parse_sense parse_by_code parse_sense_fixed parse_sense_descriptor
flag-is_sense_data sense sense_len b0 e h = ground arith

-- With one more byte in the buffer than `sense_len` says, the parser comes to its end without
-- leaving the buffer, and returns true exactly on sense data of one of the two formats.
pub scsi_parse_sense-accepts :
    (sense : List ℕ) (sense_len b0 : ℕ)
    → sense_len + 1 ≤ length sense
    → get_elem? sense 0 ≡ some b0
    → (info : SenseInfo) × (scsi_parse_sense sense sense_len
        ≡ some (is_sense_data (b0 % 128) sense_len, info))
scsi_parse_sense-accepts sense sense_len b0 h e =
    let ((ok, info), p) = IsDefined-value (scsi_parse_sense-IsDefined sense sense_len h) in
    (info, rw (← flag-is_sense_data sense sense_len b0 e p) p)

-- A fixed-format parse that succeeds has the key, the codes and the validity bits of bytes 0, 2, 12
-- and 13, and tells current from deferred errors by the response code.
pub scsi_parse_sense_fixed_fields :
    (sense : List ℕ) (sense_len b0 b2 b12 b13 : ℕ) {info : SenseInfo}
    → get_elem? sense 0 ≡ some b0
    → get_elem? sense 2 ≡ some b2
    → get_elem? sense 12 ≡ some b12
    → get_elem? sense 13 ≡ some b13
    → (b0 % 128 ≡ 0x70) ⊎ (b0 % 128 ≡ 0x71)
    → scsi_parse_sense sense sense_len ≡ some (true, info)
    → (info.sense_key ≡ b2 % 16)
      × (info.asc ≡ b12)
      × (info.ascq ≡ b13)
      × (info.information_valid ≡ bit b0 7)
      × (info.is_current ≡ (b0 % 128 == 0x70))
unfolding scsi_parse_sense parse_by_code parse_sense_fixed fixed_fields parse_information
    parse_sense_key_specific parse_vendor_unique
scsi_parse_sense_fixed_fields sense sense_len b0 b2 b12 b13 e0 e2 e12 e13 c h = ground arith

vendor_overrun :
    (sense : List ℕ) (info : SenseInfo)
    → length sense ≡ 21
    → parse_vendor_unique sense 21 info ≡ none
unfolding parse_vendor_unique get_uint16
vendor_overrun sense info h = ground (arith, get_elem?-eq-none sense 21)

fixed_overrun :
    (sense : List ℕ) (info : SenseInfo) → length sense ≡ 21 → fixed_fields sense 21 info ≡ none
unfolding fixed_fields
fixed_overrun sense info h = bind-eq-none (parse_information sense info) _ λ i1.
    bind-eq-none (get_elem? sense 2) _ λ b2. bind-eq-none (get_elem? sense 12) _ λ asc.
      bind-eq-none (get_elem? sense 13) _ λ ascq. bind-eq-none (get_uint32 sense 8) _ λ cmd.
        bind-eq-none (get_elem? sense 14) _ λ fru.
          bind-eq-none (parse_sense_key_specific sense 15 _) _ λ i2. vendor_overrun sense i2 h

-- In a buffer of exactly 21 bytes of the fixed format, all of them sense data, the parser reads
-- past the end: the two bytes of the vendor's error begin at index 20.
pub scsi_parse_sense_overrun :
    (sense : List ℕ) (b0 : ℕ)
    → length sense ≡ 21
    → get_elem? sense 0 ≡ some b0
    → (b0 % 128 ≡ 0x70) ⊎ (b0 % 128 ≡ 0x71)
    → scsi_parse_sense sense 21 ≡ none
unfolding scsi_parse_sense parse_by_code parse_sense_fixed
scsi_parse_sense_overrun sense b0 h e c = ground (
  arith,
  fixed_overrun sense (record zero_info { is_fixed = true; is_current = true }) h,
  fixed_overrun sense (record zero_info { is_fixed = true }) h,
)
