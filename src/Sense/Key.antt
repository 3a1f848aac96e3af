-- ===== src/Sense/Key.antt =====
-- The sense key that libscsicmd/src/parse_sense.c reports.
use diskscan.Base.{
  ℕ, zero, suc, ◌+◌, ◌%◌, ◌<◌, ◌≡◌, List, arith, Bool, some, Option, ltb, bit, ◌==◌, ◌&&◌,
  Bool-cases, inl, inr, get_elem?, Ensures, nothing, value, Ensures-bind, Ensures-if, Ensures-step,
  ◌^◌, Ensures-elim,
}
use diskscan.Wire.{get_uint64, get_uint32, get_uint24, get_uint16}
use diskscan.Sense.Info.{SenseInfo}
use diskscan.Sense.{
  fixed_fields, parse_sense_fixed, descriptor, descriptors, parse_sense_descriptor,
  parse_vendor_unique, parse_information, parse_sense_key_specific, parse_by_code, scsi_parse_sense,
  ata_status_return, store_key_specific, key_specific,
}

stored :
    (info : SenseInfo) (v : ℕ)
    → info.sense_key < 16
    → (store_key_specific info (key_specific info.sense_key (v % 2 ^ 23))).sense_key < 16
stored info v e = ground arith

module _ (sense : List ℕ) where
  -- A step that keeps the sense key in range.
  abbrev Keeps : Option SenseInfo → Type 0
  Keeps = Ensures (λ i. i.sense_key < 16)

  specific-Keeps :
      (sks : ℕ) (info : SenseInfo)
      → info.sense_key < 16
      → Keeps (parse_sense_key_specific sense sks info)
  unfolding parse_sense_key_specific
  specific-Keeps sks info e = Ensures-bind (get_elem? sense sks) _ λ b.
      Ensures-if (bit b 7) (Ensures-bind (get_uint24 sense sks) _ λ v. value _ (stored info v e))
        (value _ e)

  descriptor-Keeps :
      (t n idx : ℕ) (info : SenseInfo) → info.sense_key < 16 → Keeps (descriptor t n sense idx info)
  unfolding descriptor
  descriptor-Keeps t n idx info e =
      Ensures-if (t == 0x00 && n == 0x0a)
        (Ensures-bind (get_elem? sense (idx + 2)) _
          λ b. Ensures-bind (get_uint64 sense (idx + 4)) _ λ v. value _ e)
        (Ensures-if (t == 0x01 && n == 0x0a)
          (Ensures-bind (get_uint64 sense (idx + 4)) _ λ v. value _ e)
          (Ensures-if (t == 0x02 && n == 0x06) (specific-Keeps 4 info e) (
            Ensures-if (t == 0x03 && n == 0x02)
              (Ensures-bind (get_elem? sense (idx + 3)) _ λ b. value _ e)
              (Ensures-if (t == 0x05 && n == 0x02)
                (Ensures-bind (get_elem? sense (idx + 3)) _ λ b. value _ e)
                (Ensures-if (t == 0x09 && n == 0x0c)
                  (Ensures-bind (ata_status_return sense idx) _ λ s. value _ e)
                  (Ensures-if (t == 0x80 && n == 0x02)
                    (Ensures-bind (get_uint16 sense (idx + 2)) _ λ v. value _ e) (value _ e)))))))

  descriptors-Keeps :
      (fuel sense_len idx : ℕ) (info : SenseInfo)
      → info.sense_key < 16
      → Keeps (descriptors fuel sense sense_len idx info)
  unfolding descriptors
  descriptors-Keeps zero sense_len idx info e = nothing
  descriptors-Keeps (suc fuel) sense_len idx info e = elim (Bool-cases (ltb idx sense_len)) [
    | inr c ↦ rw (c, descriptors) (value _ e)
    | inl c ↦
        rw (c, descriptors)
          (Ensures-bind (get_elem? sense idx) _ λ t. Ensures-bind (get_elem? sense (idx + 1)) _ λ n.
            elim (Bool-cases (ltb sense_len (idx + n + 2))) [
              | inl d ↦ rw d (value _ e)
              | inr d ↦ rw d (
                  Ensures-step _ (descriptor-Keeps t n idx info e)
                    λ i p. descriptors-Keeps fuel sense_len (idx + (n + 2)) i p)
            ])
  ]

  vendor-Keeps :
      (sense_len : ℕ) (info : SenseInfo)
      → info.sense_key < 16
      → Keeps (parse_vendor_unique sense sense_len info)
  unfolding parse_vendor_unique
  vendor-Keeps sense_len info e =
      Ensures-if (ltb sense_len 21) (value _ e)
        (Ensures-bind (get_uint16 sense 20) _ λ v. value _ e)

  fixed_fields-Keeps :
      (sense_len : ℕ) (info : SenseInfo) → Keeps (fixed_fields sense sense_len info)
  unfolding fixed_fields
  fixed_fields-Keeps sense_len info = Ensures-bind (parse_information sense info) _ λ i1.
      Ensures-bind (get_elem? sense 2) _ λ b2. Ensures-bind (get_elem? sense 12) _ λ asc.
        Ensures-bind (get_elem? sense 13) _ λ ascq. Ensures-bind (get_uint32 sense 8) _ λ cmd.
          Ensures-bind (get_elem? sense 14) _ λ fru.
            Ensures-step _ (specific-Keeps 15 _ (omega arith)) λ i2 e. vendor-Keeps sense_len i2 e

  -- The key of what a parser returns.
  abbrev InRange : Option (Bool × SenseInfo) → Type 0
  InRange = Ensures (λ r. r.1.sense_key < 16)

  fixed-InRange :
      (sense_len : ℕ) (info : SenseInfo)
      → info.sense_key < 16
      → InRange (parse_sense_fixed sense sense_len info)
  unfolding parse_sense_fixed
  fixed-InRange sense_len info h =
      Ensures-if (ltb sense_len 18) (value _ h)
        (Ensures-step _ (fixed_fields-Keeps sense_len info) λ i e. value _ e)

  descriptor_format-InRange :
      (sense_len : ℕ) (info : SenseInfo)
      → info.sense_key < 16
      → InRange (parse_sense_descriptor sense sense_len info)
  unfolding parse_sense_descriptor
  descriptor_format-InRange sense_len info h = Ensures-if (ltb sense_len 8) (value _ h) (
      Ensures-bind (get_elem? sense 1) _ λ b1. Ensures-bind (get_elem? sense 2) _ λ b2.
        Ensures-bind (get_elem? sense 3) _ λ b3. Ensures-bind (get_elem? sense 7) _ λ b7.
          Ensures-step _ (descriptors-Keeps (sense_len + 1) _ 8 _ (omega arith)) λ i e. value _ e)

-- The sense key that is reported has four bits.
pub scsi_parse_sense-sense_key-lt :
    (sense : List ℕ) (sense_len : ℕ) {ok : Bool} {info : SenseInfo}
    → scsi_parse_sense sense sense_len ≡ some (ok, info)
    → info.sense_key < 16
unfolding scsi_parse_sense parse_by_code
scsi_parse_sense-sense_key-lt sense sense_len h =
    Ensures-elim (scsi_parse_sense sense sense_len)
      (Ensures-bind (get_elem? sense 0) _ λ b0.
        Ensures-if (b0 % 128 == 0x70) (fixed-InRange sense sense_len _ (omega arith)) (
          Ensures-if (b0 % 128 == 0x71) (fixed-InRange sense sense_len _ (omega arith)) (
            Ensures-if (b0 % 128 == 0x72)
              (descriptor_format-InRange sense sense_len _ (omega arith))
              (Ensures-if (b0 % 128 == 0x73)
                (descriptor_format-InRange sense sense_len _ (omega arith))
                (value _ (omega arith))))))
      h
