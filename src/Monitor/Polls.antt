-- ===== src/Monitor/Polls.antt =====
-- The drive's answers to the SMART monitor of lib/diskscan.c come back, on a kernel that fills its
-- buffers.
use diskscan.Base.{
  ℕ, zero, suc, ◌+◌, ◌≤◌, ◌≡◌, refl, ◌∙◌, Bool, true, false, not, some, none, List, length, slt32,
  arith, Gives, gives, Gives-step, Gives-mono, Gives-if_of, IsDefined-value, min, ◌==◌, ◌>>=◌,
}
use diskscan.Device.Types.{SgHeader, SgReply}
use diskscan.Device.{sg_ioctl, sg_result, sg_failed, new_cdb}
use diskscan.Ata.Passthrough.{cdb_ata_smart_read_data, cdb_ata_smart_return_status}
use diskscan.Ata.Status.{ata_smart_return_status_result, ata_status_from_scsi_sense}
use diskscan.Sense.Info.{SenseInfo}
use diskscan.Sense.{scsi_parse_sense}
use diskscan.Sense.Reads.{scsi_parse_sense-IsDefined}
use diskscan.Scan.Part.{is_full}
use diskscan.Ata.{SmartAttr, ata_parse_ata_smart_read_data, ata_checksum_verify}
use diskscan.Ata.Checksum.{ata_checksum_verify-IsDefined}
use diskscan.Ata.Attributes.{ata_parse_ata_smart_read_data_lem, entries}
use diskscan.Ata.Lookup.{minus_one}
use diskscan.Monitor.{disk_dev_cdb_in, disk_smart_trip, disk_smart_attributes, smart_header}

-- The kernel fills the buffer that it is given, and the sense buffer with a byte to spare.
pub record Behaves (r : SgReply) : Type 0 where
  pub page : length r.dxfer ≡ 512
  pub sense : r.sb_len_wr + 1 ≤ length r.sbp

-- What a poll leaves: the next state of the kernel, an array of the same length, and a number that is
-- inside it if it is positive.
abbrev pub Polled : {K : Type 0} → K → List SmartAttr → ℕ × List SmartAttr × K → Type 0
Polled k' attrs (n, filled, k) =
    (k ≡ k') × (length filled ≡ length attrs) × (slt32 0 n ≡ true → n ≤ length filled)

length-entries : (n i : ℕ) (buf : List ℕ) → length (entries n i buf) ≤ n
length-entries zero i buf = omega arith
length-entries (suc n) i buf = ground (arith, length-entries n (i + 1) buf)

min-le : (n : ℕ) → min 30 n ≤ n
min-le n = ground arith

refused :
    (buf : List ℕ) (attrs : List SmartAttr) (num : ℕ)
    → ata_checksum_verify buf ≡ some false
    → ata_parse_ata_smart_read_data buf attrs num ≡ some none
unfolding ata_parse_ata_smart_read_data
refused buf attrs num e = rw e refl

module _ {K : Type 0} (ioctl : K → SgHeader → SgReply × K) where
  ioctl-Gives :
      (k : K) (header : SgHeader) (len : ℕ)
      → Behaves (ioctl k header).0
      → Gives
          (λ r.
            (r.1 ≡ (ioctl k header).1)
            × (length r.0.buf ≡ 512)
            × (r.0.sense_read + 1 ≤ length (ioctl k header).0.sbp))
          (sg_ioctl ioctl k header len)
  unfolding sg_ioctl sg_result sg_failed
  ioctl-Gives k header len h =
      let r = (ioctl k header).0 in
      let (parsed, e) = IsDefined-value (scsi_parse_sense-IsDefined r.sbp r.sb_len_wr h.sense) in
      Gives-if_of r.failed (λ t. gives _ (refl, h.page, omega (arith, h.sense)))
        (λ t. Gives-step _ (result r h parsed e) λ s p. gives _ (refl, p.0, p.1))
    where
      result :
          (r : SgReply)
          → Behaves r
          → (parsed : Bool × SenseInfo) → scsi_parse_sense r.sbp r.sb_len_wr ≡ some parsed
          → Gives (λ s. (length s.buf ≡ 512) × (s.sense_read + 1 ≤ length r.sbp)) (sg_result len r)
      result r h parsed e =
          Gives-if_of (not (r.sb_len_wr == 0)) (λ t. rw e (gives _ (h.page, h.sense)))
            (λ t. gives _ (h.page, omega (arith, h.sense)))

  cdb_in-Gives :
      (k : K) (header : SgHeader) (len : ℕ)
      → Behaves (ioctl k header).0
      → Gives
          (λ s.
            (s.2 ≡ (ioctl k header).1) × (length s.0.buf ≡ 512) × (s.0.sense_read + 1 ≤ length s.1))
          (disk_dev_cdb_in ioctl k header len)
  unfolding disk_dev_cdb_in
  cdb_in-Gives k header len h = Gives-step _ (ioctl-Gives k header len h) λ r p. gives _ p

  -- The question whether the drive has tripped comes back.
  pub trip-Gives :
      (k : K)
      → Behaves (ioctl k (smart_header (cdb_ata_smart_return_status new_cdb))).0
      → Gives
          (λ r. r.1 ≡ (ioctl k (smart_header (cdb_ata_smart_return_status new_cdb))).1)
          (disk_smart_trip ioctl k)
  unfolding disk_smart_trip ata_smart_return_status_result ata_status_from_scsi_sense
  trip-Gives k h =
      Gives-step _ (cdb_in-Gives k (smart_header (cdb_ata_smart_return_status new_cdb)) 512 h)
        λ s p.
          let (parsed, e) = IsDefined-value (scsi_parse_sense-IsDefined s.1 s.0.sense_read p.2) in
          rw e (gives _ p.0)

  -- The page of a poll, read into an array that has room for what is asked for.
  page-Gives :
      (buf : List ℕ) (attrs : List SmartAttr) (num : ℕ) (k : K)
      → length buf ≡ 512
      → num ≤ length attrs
      → Gives (Polled k attrs) (
          ata_parse_ata_smart_read_data buf attrs num >>= λ r.
          some (elim r [ none ↦ (minus_one, attrs, k) | some (n, filled) ↦ (n, filled, k) ]))
  page-Gives buf attrs num k size room =
      let (b, e) = IsDefined-value (ata_checksum_verify-IsDefined buf size) in checked b e
    where
      checked :
          (b : Bool)
          → ata_checksum_verify buf ≡ some b
          → Gives (Polled k attrs) (
              ata_parse_ata_smart_read_data buf attrs num >>= λ r.
              some (elim r [ none ↦ (minus_one, attrs, k) | some (n, filled) ↦ (n, filled, k) ]))
      checked false e = rw (refused buf attrs num e) (gives _ (refl, refl, λ t. cc))
      checked true e =
          let (j, filled, runs, count, same, _) =
            ata_parse_ata_smart_read_data_lem buf attrs num size room e in
          rw runs (
            gives _ (
              refl,
              same,
              λ t. omega (arith, count, same, length-entries (min 30 num) 0 buf, min-le num),
            ))

  -- A poll of an array that has room for what it asks for comes back.
  pub poll-Gives :
      (k : K) (attrs : List SmartAttr) (num : ℕ)
      → num ≤ length attrs
      → Behaves (ioctl k (smart_header (cdb_ata_smart_read_data new_cdb))).0
      → Gives
          (Polled (ioctl k (smart_header (cdb_ata_smart_read_data new_cdb))).1 attrs)
          (disk_smart_attributes ioctl k attrs num)
  unfolding disk_smart_attributes
  poll-Gives k attrs num room h =
      Gives-step _ (cdb_in-Gives k (smart_header (cdb_ata_smart_read_data new_cdb)) 512 h) λ s p.
        Gives-if_of (not (is_full s.0.io_res.result)) (λ t. gives _ (p.0, refl, λ t'. cc))
          λ t. Gives-mono (page-Gives s.0.buf attrs num s.2 p.1 room) λ a q. (q.0 ∙ p.0, q.1, q.2)
