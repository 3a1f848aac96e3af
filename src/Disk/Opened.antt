-- ===== src/Disk/Opened.antt =====
-- What `disk_open` of lib/diskscan.c leaves: a disk that a scan can use, or a closed device.
use diskscan.Base.{
  nothing, ℕ, ◌%◌, ◌<◌, ◌≡◌, refl, Bool, true, false, ◌&&◌, ◌||◌, not, Option, some, none, List, [],
  replicate, length, length-replicate, ◌==◌, if◌then◌else◌, Ensures, value, Ensures-bind, not-false,
  false_of_ne, Ensures-if, get_elem?, Ensures-if_of, Ensures-step, arith,
}
use diskscan.Disk.MountState.{Concerns, disk_mount_allowed-known}
use diskscan.Disk.Mount.{
  Mntent, Stat, mount_number, mount_point_check, DiskMount, disk_mount_allowed,
}
use diskscan.Ata.{max_smart_attrs}
use diskscan.Monitor.{disk_ata_monitor_end, disk_smart_trip, disk_smart_attributes, new_attrs}
use diskscan.Disk.Open.{
  System, OpenDisk, blank_disk, zero_latency, disk_close, open_error, open_identified, open_sized,
  open_device, disk_open,
}

module _ {K H : Type 0} (sys : System K H) where
  -- Of an open disk: its size and its sectors are not zero, the sectors are multiples of 512 bytes,
  -- the graph has room for each bucket, and an ATA disk has its table of SMART attributes.
  pub record Ready (latency_graph_len : ℕ) (d : OpenDisk H) : Type 0 where
    pub size : 0 < d.disk.num_bytes
    pub sector : 0 < d.disk.sector_size
    pub sectors : d.disk.sector_size % 512 ≡ 0
    pub room : length d.disk.latency_graph ≡ latency_graph_len
    pub buckets : d.disk.latency_graph_len ≡ latency_graph_len
    pub table : d.disk.is_ata ≡ true → d.has_table ≡ true

  -- The last thing done is to close the device, no graph is left, and the disk is not known to be ATA.
  pub record Closed (d : OpenDisk H) (k : K) : Type 0 where
    pub before : K
    pub closed : k ≡ sys.dev_close before
    pub graph : d.disk.latency_graph ≡ []
    pub not_ata : d.disk.is_ata ≡ false

  pub data Outcome (latency_graph_len : ℕ) : Bool × OpenDisk H × K → Type 0 where
    opened :
        {d : OpenDisk H} {k : K}
        → Ready latency_graph_len d
        → Outcome latency_graph_len (true, d, k)
    failed : {d : OpenDisk H} {k : K} → Closed d k → Outcome latency_graph_len (false, d, k)

  null_end :
      {P : K → Type 0} (has_table : Bool) (k : K)
      → has_table ≡ false
      → Ensures P (disk_ata_monitor_end sys.ioctl sys.for_type has_table k)
  unfolding disk_ata_monitor_end
  null_end true k e = cc
  null_end false k e = Ensures-bind (disk_smart_trip sys.ioctl k) _ λ a.
      Ensures-bind (disk_smart_attributes sys.ioctl a.1 new_attrs max_smart_attrs) _ λ b. nothing

  -- Without a table of attributes, only a disk that is not ATA is closed.
  disk_close-Closed :
      (d : OpenDisk H) (k : K)
      → d.has_table ≡ false
      → Ensures (λ (closed, k'). Closed closed k') (disk_close sys d k)
  unfolding disk_close
  disk_close-Closed d k e =
      Ensures-step {P = λ k'. d.disk.is_ata ≡ false} _
        (Ensures-if_of d.disk.is_ata (λ ata. null_end d.has_table k e) (λ other. value _ other))
        λ before other.
          value _ (record { before = before; closed = refl; graph = refl; not_ata = other })

  open_error-Outcome :
      (n : ℕ) (d : OpenDisk H) (k : K)
      → d.has_table ≡ false
      → Ensures (Outcome n) (open_error sys d k)
  unfolding open_error
  open_error-Outcome n d k e =
      Ensures-step _ (disk_close-Closed d k e) (λ (closed, k') c. value _ (failed c))

  open_identified-Outcome :
      (d : OpenDisk H) (path : List ℕ) (n : ℕ) (k : K)
      → 0 < d.disk.num_bytes
      → 0 < d.disk.sector_size
      → d.disk.sector_size % 512 ≡ 0
      → d.has_table ≡ false
      → Ensures (Outcome n) (open_identified sys d path n k)
  unfolding open_identified
  open_identified-Outcome d path n k h0 h1 h2 absent = Ensures-bind _ _ (λ copied.
      Ensures-if_of (not (sys.calloc n)) (λ e. open_error-Outcome n _ k absent)
        (λ e.
          let given = not-false e in
          let graph : length (if sys.calloc n then replicate n zero_latency else []) ≡ n =
            rw given (length-replicate n zero_latency) in
          Ensures-if_of d.disk.is_ata
            (λ yes. Ensures-bind _ _ (λ (ata, k'). value _ (
              opened (record {
                size = h0;
                sector = h1;
                sectors = h2;
                room = graph;
                buckets = refl;
                table = λ t. refl;
              }))))
            (λ other. value _ (
              opened (record {
                size = h0;
                sector = h1;
                sectors = h2;
                room = graph;
                buckets = refl;
                table = λ t. cc;
              })))))

  open_sized-Outcome :
      (d : OpenDisk H) (path : List ℕ) (n : ℕ) (k : K) (cap : Option (ℕ × ℕ))
      → d.has_table ≡ false
      → Ensures (Outcome n) (open_sized sys d path n k cap)
  unfolding open_sized
  open_sized-Outcome d path n k none absent = open_error-Outcome n d k absent
  open_sized-Outcome d path n k (some (num_bytes, sector_size)) absent =
      Ensures-if_of (num_bytes == 0) (λ e. open_error-Outcome n _ k absent)
        (λ e.
          Ensures-if_of (sector_size == 0 || not (sector_size % 512 == 0))
            (λ f. open_error-Outcome n _ k absent)
            (λ f.
              let size : 0 < num_bytes = ground (arith, e) in
              let sector : 0 < sector_size = ground (arith, f) in
              let sectors : sector_size % 512 ≡ 0 = ground (arith, f) in
              Ensures-bind _ _ (λ (ok, identity, k').
                Ensures-if (not ok) (open_error-Outcome n _ k' absent)
                  (open_identified-Outcome _ path n k' size sector sectors absent))))

  open_device-Outcome :
      (d : OpenDisk H) (path : List ℕ) (n : ℕ) (k : K)
      → d.has_table ≡ false
      → Ensures (Outcome n) (open_device sys d path n k)
  unfolding open_device
  open_device-Outcome d path n k absent =
      Ensures-bind _ _ (λ (cap, k'). open_sized-Outcome d path n k' cap absent)

  -- Where the path exists, can be accessed, may be mounted as it is and can be opened: what comes
  -- back after the device was opened is either a disk with a size, sectors that are a multiple of
  -- 512 bytes, a bucket for each entry of the graph and, if it is ATA, a table of attributes, or a
  -- failure that has closed the device of a disk not known to be ATA and left no graph. No failure
  -- comes back on a disk known to be ATA: to close it is to read through the table that is NULL.
  pub disk_open-Outcome :
      (k : K) {k1 : K} (path : List ℕ) (fix : Bool) (n : ℕ) (allowed : DiskMount)
      → sys.exists path ≡ true
      → sys.readable path && (not fix || sys.writable path) ≡ true
      → fix && not (disk_mount_allowed sys.stat sys.mounts path allowed) ≡ false
      → sys.dev_open path k ≡ (true, k1)
      → Ensures (Outcome n) (disk_open sys k path fix n allowed)
  unfolding disk_open
  disk_open-Outcome k {k1} path fix n allowed here access free e =
      rw (here, access, free, e) (open_device-Outcome (blank_disk sys.null fix) path n k1 refl)

  -- A scan that fixes does not touch a disk of which some mount is not among those allowed: it
  -- fails with the device unopened and the disk as it was cleared.
  pub disk_open-mounted :
      (k : K) (path : List ℕ) (n : ℕ) (allowed : DiskMount) {dev_st : Stat} (mnts : List Mntent)
      (i : ℕ) {mnt : Mntent}
      → sys.stat path ≡ some dev_st
      → dev_st.is_blk ≡ true
      → sys.mounts ≡ some mnts
      → get_elem? mnts i ≡ some mnt
      → Concerns sys.stat path dev_st mnt
      → mount_number allowed < mount_number (mount_point_check mnt)
      → disk_open sys k path true n allowed ≡ some (false, blank_disk sys.null true, k)
  unfolding disk_open
  disk_open-mounted k path n allowed mnts i {mnt} st blk read at about above =
      let refused : disk_mount_allowed sys.stat (some mnts) path allowed ≡ false = false_of_ne (λ e.
        let low = (disk_mount_allowed-known sys.stat mnts path allowed st blk).0 e i mnt at about in
        omega (arith, low, above)) in
      rw (read, refused) (same_result (sys.exists path) (sys.readable path && sys.writable path))
    where
      same_result :
          {A : Type 0} {x : A} (a b : Bool) → (if not a then x else if not b then x else x) ≡ x
      same_result true true = refl
      same_result true false = refl
      same_result false b = refl
