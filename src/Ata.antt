-- ===== src/Ata.antt =====
-- ATA data: the words, checksums and SMART pages of libscsicmd/include/ata.h and
-- libscsicmd/src/ata.c. `none` is a read past the end of a page or an entry past the end of the
-- caller's array; an inner `none` is the return value -1.
pub mod Checksum
pub mod Attributes
pub mod Passthrough
pub mod Registers
pub mod Status
pub mod FixedSense
pub mod Lookup
use diskscan.Base.{
  ℕ, zero, suc, ◌+◌, ◌-◌, ◌*◌, ◌/◌, ◌%◌, ◌^◌, Bool, true, false, not, Option, some, none, List,
  get_elem?, set, ltb, ◌==◌, if◌then◌else◌, ◌>>=◌, u8, u32, min,
}

unfoldable pub ata_get_word : List ℕ → ℕ → Option ℕ
ata_get_word buf word = do
  high ← get_elem? buf (word * 2 + 1)
  low ← get_elem? buf (word * 2)
  some (high * 2 ^ 8 + low)

-- `mask` for the bits that the `switch` names, 1 to 16; any other count leaves it 0.
unfoldable pub bits_mask : ℕ → ℕ
bits_mask count = if ltb 16 count then 0 else 2 ^ count - 1

-- The bits from start_bit to end_bit, for start_bit ≤ end_bit + 1.
unfoldable pub ata_get_bits : List ℕ → ℕ → ℕ → ℕ → Option ℕ
ata_get_bits buf word start_bit end_bit = ata_get_word buf word >>= λ v.
    some (v / 2 ^ start_bit % (bits_mask (end_bit + 1 - start_bit) + 1))

unfoldable pub ata_get_longword : List ℕ → ℕ → Option ℕ
ata_get_longword buf start_word = do
  high ← ata_get_word buf (start_word + 1)
  low ← ata_get_word buf start_word
  some (high * 2 ^ 16 + low)

unfoldable pub ata_get_qword : List ℕ → ℕ → Option ℕ
ata_get_qword buf start_word = do
  low ← ata_get_longword buf start_word
  high ← ata_get_longword buf (start_word + 2)
  some (high * 2 ^ 32 + low)

-- The loop of `ata_calc_checksum`: n more bytes from i on, added to an `unsigned`.
unfoldable pub byte_sum : ℕ → ℕ → ℕ → List ℕ → Option ℕ
byte_sum zero i val buf = some val
byte_sum (suc n) i val buf = get_elem? buf i >>= λ b. byte_sum n (i + 1) (u32 (val + b)) buf

unfoldable pub ata_calc_checksum : List ℕ → Option ℕ
ata_calc_checksum buf = byte_sum 511 0 0 buf >>= λ val. some (u8 (0x100 - val % 2 ^ 8))

unfoldable pub ata_checksum_verify : List ℕ → Option Bool
ata_checksum_verify buf = do sum ← ata_calc_checksum buf; b ← get_elem? buf 511; some (sum == b)

unfoldable pub ata_inquiry_checksum_verify : List ℕ → ℕ → Option Bool
ata_inquiry_checksum_verify buf buf_len =
    if not (buf_len == 512)
    then some false
    else (get_elem? buf 511 >>= λ b. if not (b == 0xA5) then some true else ata_checksum_verify buf)

-- `ata_smart_attr_t`
pub record SmartAttr : Type 0 where
  pub id : ℕ
  pub status : ℕ
  pub value : ℕ
  pub lowest : ℕ
  pub threshold : ℕ
  pub raw : ℕ

-- `ata_smart_thresh_t`
pub record SmartThresh : Type 0 where
  pub id : ℕ
  pub threshold : ℕ

-- `MAX_SMART_ATTRS`
abbrev pub max_smart_attrs : ℕ
max_smart_attrs = 30

-- The bytes 5 to 10 of an entry. The low four are joined in an `int`, which the first wider operand
-- extends by its sign: a set top bit of byte 8 sets all the bits above.
unfoldable pub raw_value : ℕ → ℕ → ℕ → ℕ → ℕ → ℕ → ℕ
raw_value b5 b6 b7 b8 b9 b10 =
    let low = b5 + b6 * 2 ^ 8 + b7 * 2 ^ 16 + b8 * 2 ^ 24 in
    if ltb b8 128 then low + b9 * 2 ^ 32 + b10 * 2 ^ 40 else low + (2 ^ 64 - 2 ^ 32)

-- The fields of the entry at `at`, after its id; `threshold` is what the array held.
unfoldable pub read_attr : List ℕ → ℕ → ℕ → SmartAttr → Option SmartAttr
read_attr buf at id old = do
  b1 ← get_elem? buf (at + 1)
  b2 ← get_elem? buf (at + 2)
  b3 ← get_elem? buf (at + 3)
  b4 ← get_elem? buf (at + 4)
  b5 ← get_elem? buf (at + 5)
  b6 ← get_elem? buf (at + 6)
  b7 ← get_elem? buf (at + 7)
  b8 ← get_elem? buf (at + 8)
  b9 ← get_elem? buf (at + 9)
  b10 ← get_elem? buf (at + 10)
  some (record old {
    id = id;
    status = b1 + b2 * 2 ^ 8;
    value = b3;
    lowest = b4;
    raw = raw_value b5 b6 b7 b8 b9 b10;
  })

-- The loop: n more entries from i on, the next one stored at j. The id of a skipped entry is stored
-- all the same.
unfoldable pub read_attrs : ℕ → ℕ → ℕ → List ℕ → List SmartAttr → Option (ℕ × List SmartAttr)
read_attrs zero i j buf attrs = some (j, attrs)
read_attrs (suc n) i j buf attrs = do
  id ← get_elem? buf (2 + 12 * i)
  old ← get_elem? attrs j
  elim (id == 0) [
    | true ↦ read_attrs n (i + 1) j buf (set attrs j (record old { id = 0 }))
    | false ↦
        read_attr buf (2 + 12 * i) id old >>= λ a. read_attrs n (i + 1) (j + 1) buf (set attrs j a)
  ]

unfoldable pub ata_parse_ata_smart_read_data :
    List ℕ → List SmartAttr → ℕ → Option (Option (ℕ × List SmartAttr))
ata_parse_ata_smart_read_data buf attrs max_attrs = do
  ok ← ata_checksum_verify buf
  if not ok
      then some none
      else (read_attrs (min max_smart_attrs max_attrs) 0 0 buf attrs >>= λ r. some (some r))

unfoldable pub read_threshs : ℕ → ℕ → ℕ → List ℕ → List SmartThresh → Option (ℕ × List SmartThresh)
read_threshs zero i j buf attrs = some (j, attrs)
read_threshs (suc n) i j buf attrs = do
  id ← get_elem? buf (2 + 12 * i)
  old ← get_elem? attrs j
  elim (id == 0) [
    | true ↦ read_threshs n (i + 1) j buf (set attrs j (record old { id = 0 }))
    | false ↦ get_elem? buf (2 + 12 * i + 1) >>= λ t.
        read_threshs n (i + 1) (j + 1) buf (set attrs j (record { id = id; threshold = t }))
  ]

unfoldable pub ata_parse_ata_smart_read_thresh :
    List ℕ → List SmartThresh → ℕ → Option (Option (ℕ × List SmartThresh))
ata_parse_ata_smart_read_thresh buf attrs max_attrs = do
  ok ← ata_checksum_verify buf
  if not ok
      then some none
      else (read_threshs (min max_smart_attrs max_attrs) 0 0 buf attrs >>= λ r. some (some r))
