-- ===== src/Sense/Reads.antt =====
-- How far libscsicmd/src/parse_sense.c reads.
use diskscan.Base.{
  ℕ, zero, suc, ◌+◌, ◌%◌, ◌≤◌, ◌<◌, ◌≡◌, List, length, arith, true, ltb, Bool-cases, ◌==◌, inl, inr,
  bit, IsDefined, defined, IsDefined-bind, IsDefined-if, IsDefined-if_of, if◌then◌else◌, ◌&&◌,
  IsDefined-get_elem?,
}
use diskscan.Wire.Reads.{
  IsDefined-get_uint16, IsDefined-get_uint24, IsDefined-get_uint32, IsDefined-get_uint64,
}
use diskscan.Sense.Info.{SenseInfo}
use diskscan.Sense.{
  parse_sense_key_specific, parse_information, parse_vendor_unique, fixed_fields, parse_sense_fixed,
  ata_status_return, descriptor, descriptors, parse_sense_descriptor, parse_by_code,
  scsi_parse_sense,
}

both : (t n a b : ℕ) → (t == a && n == b) ≡ true → n ≡ b
both t n a b e = ground arith

module _ (sense : List ℕ) where
  key_specific-IsDefined :
      (sks : ℕ) (info : SenseInfo)
      → sks + 3 ≤ length sense
      → IsDefined (parse_sense_key_specific sense sks info)
  unfolding parse_sense_key_specific
  key_specific-IsDefined sks info h =
      IsDefined-bind (IsDefined-get_elem? sense sks (omega arith)) λ b.
        IsDefined-if (bit b 7) (IsDefined-bind (IsDefined-get_uint24 sense sks h) λ v. defined _)
          (defined _)

  information-IsDefined :
      (info : SenseInfo) → 7 ≤ length sense → IsDefined (parse_information sense info)
  unfolding parse_information
  information-IsDefined info h = IsDefined-bind (IsDefined-get_elem? sense 0 (omega arith)) λ b0.
      IsDefined-if (bit b0 7) (IsDefined-bind (IsDefined-get_uint32 sense 3 h) λ v. defined _)
        (defined _)

  vendor_unique-IsDefined :
      (sense_len : ℕ) (info : SenseInfo)
      → sense_len + 1 ≤ length sense
      → IsDefined (parse_vendor_unique sense sense_len info)
  unfolding parse_vendor_unique
  vendor_unique-IsDefined sense_len info h = elim (Bool-cases (ltb sense_len 21)) [
    | inl e ↦ rw e (defined _)
    | inr e ↦ rw e (IsDefined-bind (IsDefined-get_uint16 sense 20 (ground arith)) λ v. defined _)
  ]

  fields-IsDefined :
      (sense_len : ℕ) (info : SenseInfo)
      → sense_len + 1 ≤ length sense
      → 18 ≤ sense_len
      → IsDefined (fixed_fields sense sense_len info)
  unfolding fixed_fields
  fields-IsDefined sense_len info h k =
      IsDefined-bind (information-IsDefined info (omega arith)) λ i1.
        IsDefined-bind (IsDefined-get_elem? sense 2 (omega arith)) λ b2.
          IsDefined-bind (IsDefined-get_elem? sense 12 (omega arith)) λ asc.
            IsDefined-bind (IsDefined-get_elem? sense 13 (omega arith)) λ ascq.
              IsDefined-bind (IsDefined-get_uint32 sense 8 (omega arith)) λ cmd.
                IsDefined-bind (IsDefined-get_elem? sense 14 (omega arith)) λ fru.
                  IsDefined-bind (key_specific-IsDefined 15 _ (omega arith))
                    λ i2. vendor_unique-IsDefined sense_len i2 h

  fixed-IsDefined :
      (sense_len : ℕ) (info : SenseInfo)
      → sense_len + 1 ≤ length sense
      → IsDefined (parse_sense_fixed sense sense_len info)
  unfolding parse_sense_fixed
  fixed-IsDefined sense_len info h = elim (Bool-cases (ltb sense_len 18)) [
    | inl e ↦ rw e (defined _)
    | inr e ↦
        rw e (IsDefined-bind (fields-IsDefined sense_len info h (ground arith)) λ i. defined _)
  ]

  ata_status-IsDefined :
      (idx : ℕ) → idx + 14 ≤ length sense → IsDefined (ata_status_return sense idx)
  unfolding ata_status_return
  ata_status-IsDefined idx h =
      IsDefined-bind (IsDefined-get_elem? sense (idx + 2) (omega arith)) λ b2.
        IsDefined-bind (IsDefined-get_elem? sense (idx + 3) (omega arith)) λ b3.
          IsDefined-bind (IsDefined-get_elem? sense (idx + 4) (omega arith)) λ b4.
            IsDefined-bind (IsDefined-get_elem? sense (idx + 5) (omega arith)) λ b5.
              IsDefined-bind (IsDefined-get_elem? sense (idx + 6) (omega arith)) λ b6.
                IsDefined-bind (IsDefined-get_elem? sense (idx + 7) (omega arith)) λ b7.
                  IsDefined-bind (IsDefined-get_elem? sense (idx + 8) (omega arith)) λ b8.
                    IsDefined-bind (IsDefined-get_elem? sense (idx + 9) (omega arith)) λ b9.
                      IsDefined-bind (IsDefined-get_elem? sense (idx + 10) (omega arith)) λ b10.
                        IsDefined-bind (IsDefined-get_elem? sense (idx + 11) (omega arith)) λ b11.
                          IsDefined-bind (IsDefined-get_elem? sense (idx + 12) (omega arith)) λ b12.
                            IsDefined-bind (IsDefined-get_elem? sense (idx + 13) (omega arith))
                              λ b13. defined _

  descriptor-IsDefined :
      (desc_type desc_len idx : ℕ) (info : SenseInfo)
      → 8 ≤ idx
      → idx + desc_len + 2 ≤ length sense
      → IsDefined (descriptor desc_type desc_len sense idx info)
  unfolding descriptor
  descriptor-IsDefined t n idx info h8 h =
      IsDefined-if_of (t == 0x00 && n == 0x0a)
        (λ e.
          let k = both t n 0x00 0x0a e in
          IsDefined-bind (IsDefined-get_elem? sense (idx + 2) (omega arith))
            λ b. IsDefined-bind (IsDefined-get_uint64 sense (idx + 4) (omega arith)) λ v. defined _)
        λ _.
          IsDefined-if_of (t == 0x01 && n == 0x0a)
            (λ e.
              let k = both t n 0x01 0x0a e in
              IsDefined-bind (IsDefined-get_uint64 sense (idx + 4) (omega arith)) λ v. defined _)
            λ _.
              IsDefined-if (t == 0x02 && n == 0x06) (key_specific-IsDefined 4 info (omega arith)) (
                IsDefined-if_of (t == 0x03 && n == 0x02)
                  (λ e.
                    let k = both t n 0x03 0x02 e in
                    IsDefined-bind (IsDefined-get_elem? sense (idx + 3) (omega arith))
                      λ b. defined _)
                  λ _.
                    IsDefined-if_of (t == 0x05 && n == 0x02)
                      (λ e.
                        let k = both t n 0x05 0x02 e in
                        IsDefined-bind (IsDefined-get_elem? sense (idx + 3) (omega arith))
                          λ b. defined _)
                      λ _.
                        IsDefined-if_of (t == 0x09 && n == 0x0c)
                          (λ e.
                            let k = both t n 0x09 0x0c e in
                            IsDefined-bind (ata_status-IsDefined idx (omega arith)) λ s. defined _)
                          λ _.
                            IsDefined-if_of (t == 0x80 && n == 0x02)
                              (λ e.
                                let k = both t n 0x80 0x02 e in
                                IsDefined-bind (IsDefined-get_uint16 sense (idx + 2) (omega arith))
                                  λ v. defined _)
                              λ _. defined _)

  descriptors-IsDefined :
      (fuel sense_len idx : ℕ) (info : SenseInfo)
      → 8 ≤ idx
      → idx ≤ sense_len
      → sense_len + 1 ≤ length sense
      → sense_len < fuel + idx
      → IsDefined (descriptors fuel sense sense_len idx info)
  unfolding descriptors
  descriptors-IsDefined zero sense_len idx info h8 hi h f = absurd (omega arith)
  descriptors-IsDefined (suc fuel) sense_len idx info h8 hi h f =
      elim (Bool-cases (ltb idx sense_len)) [
        | inr e ↦ rw (e, descriptors) (defined _)
        | inl e ↦
            rw (e, descriptors)
              (IsDefined-bind (IsDefined-get_elem? sense idx (ground arith)) λ t.
                IsDefined-bind (IsDefined-get_elem? sense (idx + 1) (ground arith)) λ n.
                  elim (Bool-cases (ltb sense_len (idx + n + 2))) [
                    | inl c ↦ rw c (defined _)
                    | inr c ↦ rw c (
                        IsDefined-bind (descriptor-IsDefined t n idx info h8 (ground arith)) λ i.
                          descriptors-IsDefined fuel sense_len (idx + (n + 2)) i (omega arith)
                            (ground arith) h (omega arith))
                  ])
      ]

  descriptor_format-IsDefined :
      (sense_len : ℕ) (info : SenseInfo)
      → sense_len + 1 ≤ length sense
      → IsDefined (parse_sense_descriptor sense sense_len info)
  unfolding parse_sense_descriptor
  descriptor_format-IsDefined sense_len info h =
      IsDefined-if_of (ltb sense_len 8) (λ _. defined _)
        λ e.
          let k : 8 ≤ sense_len = ground arith in
          IsDefined-bind (IsDefined-get_elem? sense 1 (omega arith)) λ b1.
            IsDefined-bind (IsDefined-get_elem? sense 2 (omega arith)) λ b2.
              IsDefined-bind (IsDefined-get_elem? sense 3 (omega arith)) λ b3.
                IsDefined-bind (IsDefined-get_elem? sense 7 (omega arith)) λ b7.
                  let m : ℕ = if ltb (b7 + 8) sense_len then b7 + 8 else sense_len in
                  let le : m ≤ sense_len = ground arith in
                  let ge : 8 ≤ m = ground arith in
                  IsDefined-bind
                    (descriptors-IsDefined (sense_len + 1) m 8 _ (omega arith) ge
                      (omega (arith, le)) (omega (arith, le)))
                    λ i. defined _

-- With one more byte in the buffer than `sense_len` says, the parser reads inside the buffer and
-- comes to its end, whatever the bytes are.
pub scsi_parse_sense-IsDefined :
    (sense : List ℕ) (sense_len : ℕ)
    → sense_len + 1 ≤ length sense
    → IsDefined (scsi_parse_sense sense sense_len)
unfolding scsi_parse_sense parse_by_code
scsi_parse_sense-IsDefined sense sense_len h =
    IsDefined-bind (IsDefined-get_elem? sense 0 (omega arith)) λ b0.
      IsDefined-if (b0 % 128 == 0x70) (fixed-IsDefined sense sense_len _ h) (
        IsDefined-if (b0 % 128 == 0x71) (fixed-IsDefined sense sense_len _ h) (
          IsDefined-if (b0 % 128 == 0x72) (descriptor_format-IsDefined sense sense_len _ h) (
            IsDefined-if (b0 % 128 == 0x73) (descriptor_format-IsDefined sense sense_len _ h)
              (defined _))))
