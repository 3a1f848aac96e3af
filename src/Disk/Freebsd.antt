-- ===== src/Disk/Freebsd.antt =====
-- arch/arch-freebsd.c, over what the system answers: the sizes of `ioctl`, the mounts of `getmntinfo`
-- and the network interfaces. Texts are lists of characters.
pub mod Mounts
use diskscan.Base.{
  ℕ, Bool, Option, none, some, List, [], ◌∷◌, length, get_elem?, set, leb, ◌==◌, if◌then◌else◌,
  ◌>>=◌,
}
use diskscan.Cdb.{zero_bytes}
use diskscan.Disk.Identify.{Identity, memcpy}
use diskscan.Disk.Generic.{generic_identify}
use diskscan.Disk.Mount.{
  DiskMount, disk_not_mounted, disk_mounted_ro, disk_mounted_rw, is_prefix, raise,
}

-- `disk_dev_identify`, the same text as in arch-generic.c.
unfoldable pub freebsd_identify : Identity → Option Identity
freebsd_identify d = generic_identify d

-- `disk_dev_read_cap`, over the sizes of the medium and of a sector, `none` where `ioctl` fails.
unfoldable pub freebsd_read_cap : Option ℕ → Option ℕ → Option (ℕ × ℕ)
freebsd_read_cap none sector_size = none
freebsd_read_cap (some size_bytes) none = none
freebsd_read_cap (some size_bytes) (some sector_size) = some (size_bytes, sector_size)

-- The fields of `struct statfs` that are used.
pub record Statfs : Type 0 where
  pub f_mntfromname : List ℕ
  pub f_flags : ℕ

-- `MNT_RDONLY`
abbrev pub mnt_rdonly : ℕ
mnt_rdonly = 1

-- `cur_state`
unfoldable pub statfs_state : Statfs → DiskMount
statfs_state mnt = if mnt.f_flags == mnt_rdonly then disk_mounted_ro else disk_mounted_rw

-- One round of the loop over the mounts, and the loop.
unfoldable pub statfs_entry : List ℕ → DiskMount → Statfs → DiskMount
statfs_entry path last_state mnt =
    if is_prefix path mnt.f_mntfromname then raise last_state (statfs_state mnt) else last_state

unfoldable pub statfs_entries : List ℕ → DiskMount → List Statfs → DiskMount
statfs_entries path last_state [] = last_state
statfs_entries path last_state (mnt ∷ mntbuf) =
    statfs_entries path (statfs_entry path last_state mnt) mntbuf

-- `disk_dev_mount_state`; without mounts `getmntinfo` has failed.
unfoldable pub freebsd_mount_state : List Statfs → List ℕ → DiskMount
freebsd_mount_state [] path = disk_mounted_rw
freebsd_mount_state (mnt ∷ mntbuf) path = statfs_entries path disk_not_mounted (mnt ∷ mntbuf)

-- One `struct ifreq`: whether it is the loopback, `none` where SIOCGIFFLAGS fails, and the bytes at
-- `ifru_data`, `none` where SIOCGIFMAC fails.
pub record Ifreq : Type 0 where
  pub is_loopback : Option Bool
  pub ifru_data : Option (List ℕ)

-- The loop: what is at `ifru_data` for the first interface that is no loopback.
unfoldable pub first_data : List Ifreq → Option (List ℕ)
first_data [] = none
first_data (it ∷ rest) =
    let later = first_data rest in
    elim it.is_loopback [
      | none ↦ later
      | some loopback ↦
          if loopback then later else elim it.ifru_data [ none ↦ later | some d ↦ some d ]
    ]

-- `mac_read`; the interfaces are `none` where there is no socket, or SIOCGIFCONF fails.
unfoldable pub freebsd_mac_read : Option (List Ifreq) → List ℕ → ℕ → Option (List ℕ)
freebsd_mac_read interfaces buf len = get_elem? buf 0 >>= λ old. elim interfaces [
  | none ↦ some (set buf 0 0)
  | some ifc ↦ elim (first_data ifc) [
    | none ↦ if leb len (length buf) then some (zero_bytes (set buf 0 0) 0 len) else none
    | some d ↦ memcpy (if leb 6 len then 6 else len) d (set buf 0 0)
  ]
]
