-- ===== src/Drive/Stays.antt =====
-- A scan of a drive that is not ATA stays inside its arrays in the device layer of arch/arch-linux.c, on
-- a kernel that leaves a byte to spare in the buffer for sense data.
use diskscan.Base.{
  refl, inl, inr, ◌≡◌, ltb, arith, Option-cases, take, drop, length-append, length-take,
  length-drop, ℕ, ◌+◌, ◌≤◌, false, not, Bool, Option, none, some, List, length, nothing, value,
  Ensures-if, Ensures-bind, Ensures-elim, ◌==◌, IsDefined, defined, IsDefined-bind, IsDefined-if,
  IsDefined-value, Ensures,
}
use diskscan.Device.Types.{DiskDev, SgHeader, SgReply}
use diskscan.Scan.Part.Repair.{InPlace}
use diskscan.Device.{refill, sg_ioctl, sg_result, disk_dev_read, disk_dev_write}
use diskscan.Sense.Reads.{scsi_parse_sense-IsDefined}
use diskscan.Ata.Lookup.{SmartAttrType, SmartAttrInfo}
use diskscan.Scan.Types.{Disk, Histogram, ScanMode}
use diskscan.Scan.Run.{disk_scan}
use diskscan.Scan.Run.Kept.{Keeping, disk_scan-Kept}
use diskscan.Drive.{Machine, Surroundings, drive_read, drive_write, drive_monitor, drive_platform}

length-refill : (n : ℕ) (xs buf : List ℕ) → n ≤ length buf → length (refill n xs buf) ≡ length buf
unfolding refill
length-refill n xs buf h = omega (
  arith,
  h,
  length-append (take n xs) (drop (length (take n xs)) buf),
  length-take n xs,
  length-drop (length (take n xs)) buf,
)

module _ {K : Type 0} (ioctl : K → SgHeader → SgReply × K) (dev : DiskDev) (around : Surroundings K)
    (spare : (k : K) (h : SgHeader) → (ioctl k h).0.sb_len_wr + 1 ≤ length (ioctl k h).0.sbp) where
  sg_ioctl-IsDefined : (k : K) (h : SgHeader) (len : ℕ) → IsDefined (sg_ioctl ioctl k h len)
  unfolding sg_ioctl sg_result
  sg_ioctl-IsDefined k h len =
      let r = (ioctl k h).0 in
      IsDefined-if r.failed (defined _) (
        IsDefined-bind
          (IsDefined-if (not (r.sb_len_wr == 0))
            (IsDefined-bind (scsi_parse_sense-IsDefined r.sbp r.sb_len_wr (spare k h))
              λ p. defined _)
            (defined _))
          λ s. defined _)

  read-IsDefined :
      (k : K) (offset len : ℕ) (buf : List ℕ)
      → len ≤ length buf
      → IsDefined (disk_dev_read ioctl k dev offset len buf)
  unfolding disk_dev_read
  read-IsDefined k offset len buf h =
      let inside : ltb (length buf) len ≡ false = ground (arith, h) in
      rw inside (IsDefined-bind (sg_ioctl-IsDefined k _ len) λ s. defined _)

  write-IsDefined :
      (k : K) (offset len : ℕ) (buf : List ℕ)
      → len ≤ length buf
      → IsDefined (disk_dev_write ioctl k dev offset len buf)
  unfolding disk_dev_write
  write-IsDefined k offset len buf h =
      let inside : ltb (length buf) len ≡ false = ground (arith, h) in
      rw inside (IsDefined-bind (sg_ioctl-IsDefined k _ len) λ s. defined _)

  drive_read-IsDefined :
      (w : Option (Machine K)) (offset size : ℕ) (buffer : List ℕ)
      → size ≤ length buffer
      → IsDefined w
      → IsDefined (drive_read ioctl around dev w offset size buffer).1
  unfolding drive_read
  drive_read-IsDefined none offset size buffer room h = h
  drive_read-IsDefined (some m) offset size buffer room h =
      let (r, e) = IsDefined-value (read-IsDefined m.kernel offset size buffer room) in
      rw (e, drive_read) (defined _)

  drive_write-IsDefined :
      (w : Option (Machine K)) (offset size : ℕ) (buffer : List ℕ)
      → size ≤ length buffer
      → IsDefined w
      → IsDefined (drive_write ioctl around dev w offset size buffer).1
  unfolding drive_write
  drive_write-IsDefined none offset size buffer room h = h
  drive_write-IsDefined (some m) offset size buffer room h =
      let (r, e) = IsDefined-value (write-IsDefined m.kernel offset size buffer room) in
      rw (e, drive_write) (defined _)

  monitor-IsDefined :
      (for_type : SmartAttrType → Option SmartAttrInfo) (fuel : ℕ) (w : Option (Machine K))
      → IsDefined w
      → IsDefined (drive_monitor ioctl around dev false for_type fuel w).1
  unfolding drive_monitor
  monitor-IsDefined for_type fuel none h = h
  monitor-IsDefined for_type fuel (some m) h = h

  stays :
      (for_type : SmartAttrType → Option SmartAttrInfo) (fuel : ℕ)
      → Keeping (drive_platform ioctl around dev false for_type fuel) IsDefined
  unfolding drive_platform
  stays for_type fuel = record {
    read = drive_read-IsDefined;
    write = drive_write-IsDefined;
    monitor = monitor-IsDefined for_type fuel;
  }

  -- A scan that returns has not left an array in the device layer.
  pub scan_stays :
      {H : Type 0} (hist : Histogram H) (for_type : SmartAttrType → Option SmartAttrInfo) (fuel : ℕ)
      (rand : ℕ → ℕ) (buffer : Option (List ℕ)) (disk : Disk H) (m : Machine K) (mode : ScanMode)
      (size : ℕ)
      → Ensures
          (λ r. IsDefined r.2)
          (disk_scan
            (drive_platform ioctl around dev false for_type fuel)
            hist
            rand
            buffer
            disk
            (some m)
            mode
            size)
  scan_stays hist for_type fuel rand buffer disk m mode size =
      disk_scan-Kept _ hist IsDefined (stays for_type fuel) rand buffer disk (some m) mode size
        (defined m)

module _ {K : Type 0} (ioctl : K → SgHeader → SgReply × K) (dev : DiskDev)
    (around : Surroundings K) where
  length-disk_dev_read :
      (k : K) (offset len : ℕ) (buf : List ℕ)
      → len ≤ length buf
      → Ensures (λ r. length r.0.buf ≡ length buf) (disk_dev_read ioctl k dev offset len buf)
  unfolding disk_dev_read
  length-disk_dev_read k offset len buf h =
      Ensures-if (ltb (length buf) len) nothing
        (Ensures-bind (sg_ioctl ioctl k _ len) _ λ r. value _ (length-refill len r.0.buf buf h))

  length-disk_dev_write :
      (k : K) (offset len : ℕ) (buf : List ℕ)
      → len ≤ length buf
      → Ensures (λ r. length r.0.buf ≡ length buf) (disk_dev_write ioctl k dev offset len buf)
  unfolding disk_dev_write
  length-disk_dev_write k offset len buf h =
      Ensures-if (ltb (length buf) len) nothing
        (Ensures-bind (sg_ioctl ioctl k _ len) _ λ r. value _ (length-refill len r.0.buf buf h))

  length-drive_read :
      (w : Option (Machine K)) (offset size : ℕ) (buffer : List ℕ)
      → size ≤ length buffer
      → length (drive_read ioctl around dev w offset size buffer).0.buffer ≡ length buffer
  unfolding drive_read
  length-drive_read none offset size buffer h = refl
  length-drive_read (some m) offset size buffer h =
      elim (Option-cases (disk_dev_read ioctl m.kernel dev offset size buffer)) [
        | inl e ↦ rw (e, drive_read) refl
        | inr (r, e) ↦
            rw (e, drive_read)
              (Ensures-elim _ (length-disk_dev_read m.kernel offset size buffer h) e)
      ]

  length-drive_write :
      (w : Option (Machine K)) (offset size : ℕ) (buffer : List ℕ)
      → size ≤ length buffer
      → length (drive_write ioctl around dev w offset size buffer).0 ≡ length buffer
  unfolding drive_write
  length-drive_write none offset size buffer h = refl
  length-drive_write (some m) offset size buffer h =
      elim (Option-cases (disk_dev_write ioctl m.kernel dev offset size buffer)) [
        | inl e ↦ rw (e, drive_write) refl
        | inr (r, e) ↦
            rw (e, drive_write)
              (Ensures-elim _ (length-disk_dev_write m.kernel offset size buffer h) e)
      ]

  -- Reads and writes of a drive leave the buffer as long as it is.
  pub drive-InPlace :
      (is_ata : Bool) (for_type : SmartAttrType → Option SmartAttrInfo) (fuel : ℕ) {H : Type 0}
      (hist : Histogram H)
      → InPlace (drive_platform ioctl around dev is_ata for_type fuel) hist
  unfolding drive_platform
  drive-InPlace is_ata for_type fuel hist = record {
    read = length-drive_read;
    write = length-drive_write;
  }
