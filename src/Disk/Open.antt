-- ===== src/Disk/Open.antt =====
-- `disk_open` and `disk_close` of lib/diskscan.c. Parameters are the kernel, over its own state, what
-- `access`, `stat`, /proc/mounts and `calloc` answer, HdrHistogram and the drive's table of
-- attributes. Messages are left out.
use diskscan.Base.{
  ℕ, ◌%◌, Bool, true, false, ◌&&◌, ◌||◌, not, Option, some, none, List, [], ◌∷◌, ◌++◌, set,
  replicate, ◌==◌, if◌then◌else◌, ◌>>=◌,
}
use diskscan.Device.Types.{SgHeader, SgReply}
use diskscan.Device.{disk_dev_read_cap}
use diskscan.Scan.Types.{Disk, Latency, scan_problem}
use diskscan.Ata.Lookup.{SmartAttrType, SmartAttrInfo}
use diskscan.Monitor.{AtaState, new_attrs, disk_ata_monitor_start, disk_ata_monitor_end}
use diskscan.Inquiry.{strncpy}
use diskscan.Disk.Mount.{DiskMount, Mntent, Stat, disk_mount_allowed}
use diskscan.Disk.Identify.{Identity, disk_dev_identify}

-- A histogram is `null` before `hdr_init`.
pub record System (K H : Type 0) : Type 0 where
  pub ioctl : K → SgHeader → SgReply × K
  pub dev_open : List ℕ → K → Bool × K
  pub dev_close : K → K
  pub exists : List ℕ → Bool
  pub readable : List ℕ → Bool
  pub writable : List ℕ → Bool
  pub stat : List ℕ → Option Stat
  pub mounts : Option (List Mntent)
  pub calloc : ℕ → Bool
  pub isspace : ℕ → Bool
  pub for_type : SmartAttrType → Option SmartAttrInfo
  pub null : H
  pub hdr_init : H

-- `disk_t` with the fields that a scan does not use. A latency graph of NULL is the empty list; `has_table`
-- says that `smart_table` is not NULL; the table that smart_table_for_disk finds is a parameter.
pub record OpenDisk (H : Type 0) : Type 0 where
  pub disk : Disk H
  pub identity : Identity
  pub ata : AtaState
  pub has_table : Bool
  pub path : List ℕ

abbrev pub zero_latency : Latency
zero_latency = record {
  start_sector = 0;
  end_sector = 0;
  latency_min_msec = 0;
  latency_max_msec = 0;
  latency_median_msec = 0;
}

-- `memset(disk, 0, sizeof(*disk))`, with `fix`.
abbrev pub blank_disk : {H : Type 0} → H → Bool → OpenDisk H
blank_disk null fix = record {
  disk = record {
    is_ata = false;
    num_bytes = 0;
    sector_size = 0;
    run = false;
    fix = fix;
    num_errors = 0;
    histogram = null;
    latency_graph_len = 0;
    latency_graph = [];
    conclusion = scan_problem;
    data_raw = none;
    data_log = none;
  };
  identity = record {
    vendor = replicate 64 0;
    model = replicate 64 0;
    fw_rev = replicate 64 0;
    serial = replicate 64 0;
    is_ata = false;
    ata_buf = replicate 512 0;
    ata_buf_len = 0;
  };
  ata = record {
    is_smart_tripped = false;
    smart = new_attrs;
    smart_num = 0;
    last_temp = 0;
    last_reallocs = 0;
    last_pending_reallocs = 0;
    last_crc_errors = 0;
  };
  has_table = false;
  path = replicate 128 0;
}

module _ {K H : Type 0} (sys : System K H) where
  unfoldable pub disk_close : OpenDisk H → K → Option (OpenDisk H × K)
  disk_close d k = do
    k' ← if d.disk.is_ata then disk_ata_monitor_end sys.ioctl sys.for_type d.has_table k else some k
    some (record d { disk = record d.disk { latency_graph = [] } }, sys.dev_close k')

  -- The label `Error` of `disk_open`.
  unfoldable pub open_error : OpenDisk H → K → Option (Bool × OpenDisk H × K)
  open_error d k = disk_close d k >>= λ (closed, k'). some (false, closed, k')

  -- The part of `disk_open` after the disk is identified.
  unfoldable pub open_identified : OpenDisk H → List ℕ → ℕ → K → Option (Bool × OpenDisk H × K)
  open_identified d path latency_graph_len k = strncpy 128 (path ++ 0 ∷ []) 0 d.path 0 >>= λ copied.
      let d1 : OpenDisk H = record d {
        path = set copied 127 0;
        disk = record d.disk {
          histogram = sys.hdr_init;
          latency_graph_len = latency_graph_len;
          latency_graph =
              if sys.calloc latency_graph_len then replicate latency_graph_len zero_latency else [];
        };
      } in
      if not (sys.calloc latency_graph_len)
      then open_error d1 k
      else if d.disk.is_ata
      then (disk_ata_monitor_start sys.ioctl sys.for_type d1.ata k >>= λ (ata, k').
          some (true, record d1 { ata = ata; has_table = true }, k'))
      else some (true, d1, k)

  -- The part of `disk_open` after the capacity is read, which is `none` for -1.
  unfoldable pub open_sized :
      OpenDisk H → List ℕ → ℕ → K → Option (ℕ × ℕ) → Option (Bool × OpenDisk H × K)
  open_sized d path latency_graph_len k none = open_error d k
  open_sized d path latency_graph_len k (some (num_bytes, sector_size)) =
      let d1 : OpenDisk H = record d {
        disk = record d.disk { num_bytes = num_bytes; sector_size = sector_size };
      } in
      if num_bytes == 0
      then open_error d1 k
      else if sector_size == 0 || not (sector_size % 512 == 0)
      then open_error d1 k
      else (disk_dev_identify sys.ioctl sys.isspace k d1.identity >>= λ (ok, identity, k').
          let d2 : OpenDisk H = record d1 {
            identity = identity;
            disk = record d1.disk { is_ata = identity.is_ata };
          } in
          if not ok then open_error d2 k' else open_identified d2 path latency_graph_len k')

  -- The part of `disk_open` after the device is open.
  unfoldable pub open_device : OpenDisk H → List ℕ → ℕ → K → Option (Bool × OpenDisk H × K)
  open_device d path latency_graph_len k =
      disk_dev_read_cap sys.ioctl k >>= λ (cap, k'). open_sized d path latency_graph_len k' cap

  -- The result true is the return value 0.
  unfoldable pub disk_open : K → List ℕ → Bool → ℕ → DiskMount → Option (Bool × OpenDisk H × K)
  disk_open k path fix latency_graph_len allowed_mount =
      let d : OpenDisk H = blank_disk sys.null fix in
      if not (sys.exists path)
      then some (false, d, k)
      else if not (sys.readable path && (not fix || sys.writable path))
      then some (false, d, k)
      else if fix && not (disk_mount_allowed sys.stat sys.mounts path allowed_mount)
      then some (false, d, k)
      else let (opened, k1) = sys.dev_open path k in
        if not opened then some (false, d, k1) else open_device d path latency_graph_len k1
