-- ===== src/Ata/FixedSense.antt =====
-- The ATA status of fixed sense data, libscsicmd/src/ata.c over libscsicmd/src/parse_sense.c.
use diskscan.Base.{
  ℕ, ◌%◌, false, ◌≡◌, refl, ◌⊎◌, inl, inr, List, Option, some, none, get_elem?, bit, ltb, Ensures,
  value, Ensures-bind, Ensures-step, Ensures-if, Ensures-elim, arith, IsDefined-value, length, ◌+◌,
  ◌≤◌,
}
use diskscan.Wire.{get_uint16, get_uint24, get_uint32}
use diskscan.Sense.Info.{SenseInfo, AtaStatus}
use diskscan.Sense.{
  parse_sense_key_specific, parse_information, parse_vendor_unique, fixed_fields, parse_sense_fixed,
  parse_by_code, scsi_parse_sense, store_key_specific,
}
use diskscan.Sense.Reads.{scsi_parse_sense-IsDefined}
use diskscan.Ata.Status.{ata_status_from_scsi_sense, ata_smart_return_status_result}

-- No ATA status is found.
abbrev Lacks : SenseInfo → Type 0
Lacks i = i.ata_status_valid ≡ false

module _ (sense : List ℕ) (info : SenseInfo) (h : Lacks info) where
  store-Lacks : (v : Option _) → Lacks (store_key_specific info v)
  store-Lacks none = h
  store-Lacks (some v) = h

  key_specific-Lacks : (sks : ℕ) → Ensures Lacks (parse_sense_key_specific sense sks info)
  unfolding parse_sense_key_specific
  key_specific-Lacks sks = Ensures-bind (get_elem? sense sks) _ λ b.
      Ensures-if (bit b 7) (Ensures-bind (get_uint24 sense sks) _ λ v. value _ (store-Lacks _))
        (value _ h)

  information-Lacks : Ensures Lacks (parse_information sense info)
  unfolding parse_information
  information-Lacks =
      Ensures-bind (get_elem? sense 0) _
        λ b0. Ensures-if (bit b0 7) (Ensures-bind (get_uint32 sense 3) _ λ v. value _ h) (value _ h)

  vendor_unique-Lacks : (n : ℕ) → Ensures Lacks (parse_vendor_unique sense n info)
  unfolding parse_vendor_unique
  vendor_unique-Lacks n =
      Ensures-if (ltb n 21) (value _ h) (Ensures-bind (get_uint16 sense 20) _ λ v. value _ h)

fields-Lacks :
    (sense : List ℕ) (n : ℕ) (info : SenseInfo)
    → Lacks info
    → Ensures Lacks (fixed_fields sense n info)
unfolding fixed_fields
fields-Lacks sense n info h = Ensures-step _ (information-Lacks sense info h) λ i1 h1.
    Ensures-bind (get_elem? sense 2) _ λ b2. Ensures-bind (get_elem? sense 12) _ λ asc.
      Ensures-bind (get_elem? sense 13) _ λ ascq. Ensures-bind (get_uint32 sense 8) _ λ cmd.
        Ensures-bind (get_elem? sense 14) _ λ fru.
          Ensures-step _ (key_specific-Lacks sense _ h1 15)
            λ i2 h2. vendor_unique-Lacks sense i2 h2 n

fixed-Lacks :
    (sense : List ℕ) (n : ℕ) (info : SenseInfo)
    → Lacks info
    → Ensures (λ r. Lacks r.1) (parse_sense_fixed sense n info)
unfolding parse_sense_fixed
fixed-Lacks sense n info h =
    Ensures-if (ltb n 18) (value _ h)
      (Ensures-step _ (fields-Lacks sense n info h) λ i k. value _ k)

parse-Lacks :
    (sense : List ℕ) (n b0 : ℕ)
    → get_elem? sense 0 ≡ some b0
    → (b0 % 128 ≡ 0x70) ⊎ (b0 % 128 ≡ 0x71)
    → Ensures (λ r. Lacks r.1) (scsi_parse_sense sense n)
unfolding scsi_parse_sense parse_by_code
parse-Lacks sense n b0 g (inl e) = rw (g, e) (fixed-Lacks sense n _ refl)
parse-Lacks sense n b0 g (inr e) = rw (g, e) (fixed-Lacks sense n _ refl)

-- In a buffer with a byte more than the sense data, fixed sense data never gives the result of a
-- SMART RETURN STATUS, whatever status the drive has put there.
pub smart_status_fixed :
    (sense : List ℕ) (n b0 : ℕ) (old : AtaStatus)
    → n + 1 ≤ length sense
    → get_elem? sense 0 ≡ some b0
    → (b0 % 128 ≡ 0x70) ⊎ (b0 % 128 ≡ 0x71)
    → ata_smart_return_status_result sense n old ≡ some none
unfolding ata_smart_return_status_result ata_status_from_scsi_sense
smart_status_fixed sense n b0 old h g c =
    let (r, e) = IsDefined-value (scsi_parse_sense-IsDefined sense n h) in
    let lacks : Lacks r.1 =
      Ensures-elim (scsi_parse_sense sense n) (parse-Lacks sense n b0 g c) e in
    rw e (ground arith)
