-- ===== src/Drive/Kept.antt =====
-- What a scan on a drive keeps of its kernel, if the requests that it sends do.
use diskscan.Base.{
  ℕ, ◌≡◌, ◌∙◌, Bool, true, false, inl, inr, Option, none, some, List, Bool-cases, Option-cases,
  Ensures, Ensures-elim,
}
use diskscan.Device.Types.{DiskDev, SgHeader, SgReply}
use diskscan.Device.{disk_dev_read, disk_dev_write}
use diskscan.Ata.Lookup.{SmartAttrType, SmartAttrInfo}
use diskscan.Monitor.{disk_ata_monitor}
use diskscan.Drive.Sent.{Asked, read-Sent, write-Sent, monitor-Sent}
use diskscan.Scan.Types.{Disk, Histogram, ScanMode}
use diskscan.Scan.Run.{disk_scan}
use diskscan.Scan.Run.Kept.{Keeping, disk_scan-Kept}
use diskscan.Scan.Run.ReadOnly.{rewired, disk_scan_read_only}
use diskscan.Drive.{Machine, Surroundings, drive_read, drive_write, drive_monitor, drive_platform}

module _ {K : Type 0} (ioctl : K → SgHeader → SgReply × K) (dev : DiskDev) (fix : Bool)
    (P : K → Type 0) (sent : (k : K) (h : SgHeader) → Asked dev fix h → P k → P (ioctl k h).1) where
  -- What P says of the kernel, where there is a state.
  abbrev pub Kernel : Option (Machine K) → Type 0
  Kernel none = Unit {0}
  Kernel (some m) = P m.kernel

  module _ (around : Surroundings K) where
    read-Kernel :
        (w : Option (Machine K)) (offset size : ℕ) (buffer : List ℕ)
        → Kernel w
        → Kernel (drive_read ioctl around dev w offset size buffer).1
    unfolding drive_read
    read-Kernel none offset size buffer p = tt
    read-Kernel (some m) offset size buffer p =
        elim (Option-cases (disk_dev_read ioctl m.kernel dev offset size buffer)) [
          | inl e ↦ rw (e, drive_read) tt
          | inr (r, e) ↦
              let q =
                Ensures-elim _ (read-Sent ioctl dev fix P sent m.kernel offset size buffer p) e in
              rw (e, drive_read) q
        ]

    write-Kernel :
        (w : Option (Machine K)) (offset size : ℕ) (buffer : List ℕ)
        → fix ≡ true
        → Kernel w
        → Kernel (drive_write ioctl around dev w offset size buffer).1
    unfolding drive_write
    write-Kernel none offset size buffer f p = tt
    write-Kernel (some m) offset size buffer f p =
        elim (Option-cases (disk_dev_write ioctl m.kernel dev offset size buffer)) [
          | inl e ↦ rw (e, drive_write) tt
          | inr (r, e) ↦
              let q =
                Ensures-elim _ (write-Sent ioctl dev fix P sent m.kernel offset size buffer f p)
                  e in
              rw (e, drive_write) q
        ]

    monitor-Kernel :
        (is_ata : Bool) (for_type : SmartAttrType → Option SmartAttrInfo) (fuel : ℕ)
        (w : Option (Machine K))
        → Kernel w
        → Kernel (drive_monitor ioctl around dev is_ata for_type fuel w).1
    unfolding drive_monitor
    monitor-Kernel is_ata for_type fuel none p = tt
    monitor-Kernel false for_type fuel (some m) p = p
    monitor-Kernel true for_type fuel (some m) p =
        elim (Option-cases (disk_ata_monitor ioctl for_type fuel m.ata m.kernel)) [
          | inl e ↦ rw (e, drive_monitor) tt
          | inr (r, e) ↦
              let q =
                Ensures-elim _ (monitor-Sent ioctl dev fix P sent for_type fuel m.ata m.kernel p)
                  e in
              rw (e, drive_monitor) q
        ]

    keeping :
        (is_ata : Bool) (for_type : SmartAttrType → Option SmartAttrInfo) (fuel : ℕ)
        → fix ≡ true
        → Keeping (drive_platform ioctl around dev is_ata for_type fuel) Kernel
    unfolding drive_platform
    keeping is_ata for_type fuel f = record {
      read = λ w offset size buffer room. read-Kernel w offset size buffer;
      write = λ w offset size buffer room. write-Kernel w offset size buffer f;
      monitor = monitor-Kernel is_ata for_type fuel;
    }

    keeping_no_writes :
        (is_ata : Bool) (for_type : SmartAttrType → Option SmartAttrInfo) (fuel : ℕ) {H : Type 0}
        (hist : Histogram H)
        → Keeping
            (rewired
              (drive_platform ioctl around dev is_ata for_type fuel)
              (λ w offset size buffer. (buffer, w))
              hist)
            Kernel
    unfolding drive_platform
    keeping_no_writes is_ata for_type fuel hist = record {
      read = λ w offset size buffer room. read-Kernel w offset size buffer;
      write = λ w offset size buffer room p. p;
      monitor = monitor-Kernel is_ata for_type fuel;
    }

    pub scan-Kernel :
        {H : Type 0} (hist : Histogram H) (is_ata : Bool)
        (for_type : SmartAttrType → Option SmartAttrInfo) (fuel : ℕ) (rand : ℕ → ℕ)
        (buffer : Option (List ℕ)) (disk : Disk H) (w : Option (Machine K)) (mode : ScanMode)
        (size : ℕ)
        → disk.fix ≡ fix
        → Kernel w
        → Ensures
            (λ r. Kernel r.2)
            (disk_scan
              (drive_platform ioctl around dev is_ata for_type fuel)
              hist
              rand
              buffer
              disk
              w
              mode
              size)
    scan-Kernel hist is_ata for_type fuel rand buffer disk w mode size h p =
        let platform = drive_platform ioctl around dev is_ata for_type fuel in
        elim (Bool-cases fix) [
          | inl f ↦
              disk_scan-Kept platform hist Kernel (keeping is_ata for_type fuel f) rand buffer disk
                w mode size p
          | inr f ↦
              rw
                (disk_scan_read_only platform (λ w offset size buffer. (buffer, w)) hist rand buffer
                  disk w mode size (h ∙ f))
                (disk_scan-Kept _ hist Kernel (keeping_no_writes is_ata for_type fuel hist) rand
                  buffer disk w mode size p)
        ]
