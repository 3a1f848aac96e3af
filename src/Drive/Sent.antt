-- ===== src/Drive/Sent.antt =====
-- What the calls that a scan makes of arch/arch-linux.c and of the SMART monitor send to the kernel.
use diskscan.Base.{
  length, ltb, ℕ, zero, suc, ◌≡◌, Bool, true, not, inl, inr, Option, List, slt32, Option-cases,
  Ensures, nothing, value, Ensures-bind, Ensures-step, Ensures-if,
}
use diskscan.Device.Types.{DiskDev, SgHeader, SgReply}
use diskscan.Device.{sg_ioctl, new_cdb, read_header, write_header, disk_dev_read, disk_dev_write}
use diskscan.Ata.{SmartAttr, max_smart_attrs, ata_parse_ata_smart_read_data}
use diskscan.Ata.Passthrough.{cdb_ata_smart_return_status, cdb_ata_smart_read_data}
use diskscan.Ata.Lookup.{SmartAttrType, SmartAttrInfo}
use diskscan.Monitor.{
  AtaState, temp_threshold, smart_header, disk_dev_cdb_in, disk_smart_trip, disk_smart_attributes,
  pause, ata_test_temp, disk_ata_monitor, new_attrs,
}

-- The requests of a scan: reads, the two of the SMART monitor and, if it fixes, writes.
pub data Asked (dev : DiskDev) (fix : Bool) : SgHeader → Type 0 where
  reads : (offset len : ℕ) (buf : List ℕ) → Asked dev fix (read_header dev offset len buf)
  smart_status : Asked dev fix (smart_header (cdb_ata_smart_return_status new_cdb))
  smart_data : Asked dev fix (smart_header (cdb_ata_smart_read_data new_cdb))
  writes :
      (offset len : ℕ) (buf : List ℕ) → fix ≡ true → Asked dev fix (write_header dev offset len buf)

module _ {K : Type 0} (ioctl : K → SgHeader → SgReply × K) (dev : DiskDev) (fix : Bool)
    (P : K → Type 0) (sent : (k : K) (h : SgHeader) → Asked dev fix h → P k → P (ioctl k h).1) where
  sg_ioctl-Sent :
      (k : K) (h : SgHeader) (n : ℕ)
      → Asked dev fix h
      → P k
      → Ensures (λ r. P r.1) (sg_ioctl ioctl k h n)
  unfolding sg_ioctl
  sg_ioctl-Sent k h n a p =
      Ensures-if (ioctl k h).0.failed (value _ (sent k h a p))
        (Ensures-bind _ _ λ s. value _ (sent k h a p))

  pub read-Sent :
      (k : K) (offset len : ℕ) (buf : List ℕ)
      → P k
      → Ensures (λ r. P r.1) (disk_dev_read ioctl k dev offset len buf)
  unfolding disk_dev_read
  read-Sent k offset len buf p =
      Ensures-if (ltb (length buf) len) nothing
        (Ensures-step _ (sg_ioctl-Sent k _ len (reads offset len buf) p) λ r q. value _ q)

  pub write-Sent :
      (k : K) (offset len : ℕ) (buf : List ℕ)
      → fix ≡ true
      → P k
      → Ensures (λ r. P r.1) (disk_dev_write ioctl k dev offset len buf)
  unfolding disk_dev_write
  write-Sent k offset len buf f p =
      Ensures-if (ltb (length buf) len) nothing
        (Ensures-step _ (sg_ioctl-Sent k _ len (writes offset len buf f) p) λ r q. value _ q)

  trip-Sent : (k : K) → P k → Ensures (λ r. P r.1) (disk_smart_trip ioctl k)
  unfolding disk_smart_trip disk_dev_cdb_in
  trip-Sent k p =
      Ensures-step _
        (Ensures-step {Q = λ r. P r.2} _ (sg_ioctl-Sent k _ 512 smart_status p) λ r q. value _ q)
        λ r q. Ensures-bind _ _ λ t. value _ q

  attributes-Sent :
      (k : K) (attrs : List SmartAttr) (n : ℕ)
      → P k
      → Ensures (λ r. P r.2) (disk_smart_attributes ioctl k attrs n)
  unfolding disk_smart_attributes disk_dev_cdb_in
  attributes-Sent k attrs n p =
      Ensures-step _
        (Ensures-step {Q = λ r. P r.2} _ (sg_ioctl-Sent k _ 512 smart_data p) λ r q. value _ q)
        λ r q. Ensures-if (not _) (value _ q) (
          Ensures-bind (ata_parse_ata_smart_read_data r.0.buf attrs n) _
            λ t. elim (Option-cases t) [ inl e ↦ rw e (value _ q) | inr (_, e) ↦ rw e (value _ q) ])

  module _ (for_type : SmartAttrType → Option SmartAttrInfo) where
    pause-Sent :
        (fuel : ℕ) (k : K) (smart : List SmartAttr) (num t lo hi : ℕ)
        → P k
        → Ensures (λ r. P r.1) (pause ioctl for_type fuel k smart num t lo hi)
    unfolding pause
    pause-Sent zero k smart num t lo hi p = nothing
    pause-Sent (suc fuel) k smart num t lo hi p = Ensures-if (slt32 t temp_threshold) (value _ p) (
        Ensures-step _ (attributes-Sent k smart num p)
          λ r q. Ensures-if (slt32 0 r.0) (pause-Sent fuel r.2 r.1 r.0 _ _ _ q) (value _ q))

    pub monitor-Sent :
        (fuel : ℕ) (s : AtaState) (k : K)
        → P k
        → Ensures (λ r. P r.1) (disk_ata_monitor ioctl for_type fuel s k)
    unfolding disk_ata_monitor ata_test_temp
    monitor-Sent fuel s k p =
        Ensures-step {P = λ r. P r.1} _ (Ensures-if s.is_smart_tripped (value _ p) (trip-Sent k p))
          λ a q. Ensures-step _ (attributes-Sent a.1 new_attrs max_smart_attrs q) λ b q'.
            Ensures-if (not (slt32 0 b.0)) (value _ q') (
              Ensures-step {P = λ r. P r.2} _
                (Ensures-step _ (pause-Sent fuel b.2 b.1 b.0 _ _ _ q') λ c q''. value _ q'')
                λ c q''. value _ q'')
