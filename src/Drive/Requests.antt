-- ===== src/Drive/Requests.antt =====
-- What a scan of lib/diskscan.c asks of a drive through arch/arch-linux.c.
use diskscan.Base.{
  ℕ, ◌≡◌, refl, Bool, false, Option, none, some, List, [], ◌∷◌, Ensures, Ensures-mono,
}
use diskscan.Device.Types.{DiskDev, SgHeader, SgReply, from_dev}
use diskscan.Device.{read_header}
use diskscan.Ata.Lookup.{SmartAttrType, SmartAttrInfo}
use diskscan.Monitor.{AtaState}
use diskscan.Drive.Sent.{Asked, reads, writes, smart_status, smart_data}
use diskscan.Scan.Types.{Disk, Histogram, ScanMode}
use diskscan.Scan.Run.{disk_scan}
use diskscan.Drive.{Machine, Surroundings, drive_platform}
use diskscan.Drive.Kept.{Kernel, scan-Kernel}

-- A kernel that remembers what it is asked, the last request first.
unfoldable pub traced :
    {K : Type 0}
    → (K → SgHeader → SgReply × K)
    → K × List SgHeader
    → SgHeader
    → SgReply × (K × List SgHeader)
traced ioctl (k, asked) h = let (r, k') = ioctl k h in (r, (k', h ∷ asked))

abbrev pub AllAsked : DiskDev → Bool → List SgHeader → Type 0
AllAsked dev fix [] = Unit {0}
AllAsked dev fix (h ∷ hs) = Asked dev fix h × AllAsked dev fix hs

-- The requests of a machine, where it has a state.
abbrev pub requests : {K : Type 0} → Option (Machine (K × List SgHeader)) → List SgHeader
requests none = []
requests (some m) = m.kernel.1

abbrev pub AllFromDev : List SgHeader → Type 0
AllFromDev [] = Unit {0}
AllFromDev (h ∷ hs) = (h.direction ≡ from_dev) × AllFromDev hs

reads_only :
    (dev : DiskDev) (hs : List SgHeader) (fix : Bool)
    → fix ≡ false
    → AllAsked dev fix hs
    → AllFromDev hs
unfolding read_header
reads_only dev [] fix e a = tt
reads_only dev (h ∷ hs) fix e (one, rest) = (harmless one, reads_only dev hs fix e rest)
  where
    harmless : {h : SgHeader} → Asked dev fix h → h.direction ≡ from_dev
    harmless (reads offset len buf) = refl
    harmless smart_status = refl
    harmless smart_data = refl
    harmless (writes offset len buf f) = cc

module _ {K H : Type 0} (ioctl : K → SgHeader → SgReply × K)
    (around : Surroundings (K × List SgHeader)) (dev : DiskDev) (hist : Histogram H) (is_ata : Bool)
    (for_type : SmartAttrType → Option SmartAttrInfo) (fuel : ℕ) (rand : ℕ → ℕ)
    (buffer : Option (List ℕ)) (disk : Disk H) (k : K) (ata : AtaState) (mode : ScanMode)
    (size : ℕ) where
  -- A scan on a kernel that remembers what it is asked.
  abbrev pub traced_scan : Option (ℕ × Disk H × Option (Machine (K × List SgHeader)))
  traced_scan =
      disk_scan (drive_platform (traced ioctl) around dev is_ata for_type fuel) hist rand buffer
        disk (some (record { kernel = (k, []); ata = ata })) mode size

  -- Whatever the kernel answers, as long as the code stays inside its arrays, a scan through the
  -- Linux device layer and the SMART monitor asks of the drive only READ(10) commands that
  -- disk_dev_read makes, the two of the monitor and, if it fixes, WRITE(10) commands that
  -- disk_dev_write makes.
  pub scan_requests : Ensures (λ r. AllAsked dev disk.fix (requests r.2)) traced_scan
  unfolding traced
  scan_requests =
      Ensures-mono
        (scan-Kernel (traced ioctl) dev disk.fix (λ t. AllAsked dev disk.fix t.1) remembered around
          hist is_ata for_type fuel rand buffer disk _ mode size refl tt)
        λ r p. asked r.2 p
    where
      remembered :
          (t : K × List SgHeader) (h : SgHeader)
          → Asked dev disk.fix h
          → AllAsked dev disk.fix t.1
          → AllAsked dev disk.fix (traced ioctl t h).1.1
      remembered t h a p = (a, p)

      asked :
          (w : Option (Machine (K × List SgHeader)))
          → Kernel (traced ioctl) dev disk.fix (λ t. AllAsked dev disk.fix t.1) remembered w
          → AllAsked dev disk.fix (requests w)
      asked none p = tt
      asked (some m) p = p

  -- Then no request of a scan that does not fix carries data to the drive.
  pub scan_reads_only : disk.fix ≡ false → Ensures (λ r. AllFromDev (requests r.2)) traced_scan
  scan_reads_only e =
      Ensures-mono scan_requests λ r all. reads_only dev (requests r.2) disk.fix e all
