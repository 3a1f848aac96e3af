-- ===== src/Tests/Disks.antt =====
-- Opening a disk (lib/diskscan.c) at concrete values.
use diskscan.Base.{
  ℕ, zero, suc, ◌+◌, ◌≡◌, ◌↔◌, refl, ◌==◌, Bool, true, false, Option, some, none, List, [], ◌∷◌,
  replicate, arith, codes, Ensures, get_or,
}
use diskscan.Device.Types.{SgHeader, SgReply}
use diskscan.Disk.Mount.{
  disk_not_mounted, disk_mounted_ro, disk_mounted_rw, raise, Mntent, Stat, tokens, check_options,
  mount_point_check, disk_mount_allowed,
}
use diskscan.Disk.MountState.{AllBelow, named, disk_mount_allowed-known}
use diskscan.Wire.{get_uint32, set_uint16}
use diskscan.Cdb.{zero_bytes, cdb_inquiry, cdb_read_capacity_10}
use diskscan.Capacity.{parse_read_capacity_10}
use diskscan.Device.{
  sg_ioctl, sg_result, sg_failed, transferred, capacity_10_header, disk_dev_read_cap,
}
use diskscan.Disk.Identify.{disk_dev_identify}
use diskscan.Disk.Freebsd.{statfs_state, statfs_entry, statfs_entries, freebsd_mount_state}
use diskscan.Disk.Open.{
  System, OpenDisk, blank_disk, disk_close, open_error, open_sized, open_device, disk_open,
}
use diskscan.Cli.Options.{
  Number, opt_fix, opt_size, suffix_factor, str_to_scan_size, parse_opt, parse_opts, check_args,
  parse_args,
}
use diskscan.Cli.Accepted.{Unforced}
use diskscan.Cli.Main.{run_options, diskscan_cli}
use diskscan.Cli.Mounted.{diskscan_cli-mounted}
use diskscan.Disk.Opened.{Outcome, disk_open-Outcome, disk_open-mounted}

abbrev sda : List ℕ
sda = codes "/dev/sda"

abbrev block : Stat
block = record { is_blk = true; st_rdev = 8 }

abbrev stat_all : List ℕ → Option Stat
stat_all path = some block

abbrev root_mount : Mntent
root_mount = record { mnt_fsname = codes "/dev/sda1"; mnt_opts = codes "noatime,rw" }

disk_mount_allowed-known_example :
    (disk_mount_allowed stat_all (some (root_mount ∷ [])) sda disk_mounted_ro ≡ true)
    ↔ AllBelow stat_all sda block (root_mount ∷ []) 1
disk_mount_allowed-known_example =
    disk_mount_allowed-known stat_all (root_mount ∷ []) sda disk_mounted_ro refl refl

-- The kernel counts the calls, gives a disk of 2048 sectors and fails at INQUIRY.
abbrev reply : ℕ → SgHeader → SgReply × ℕ
reply k header = (
  record {
    failed = get_or header.cdb 0 0 == 0x12;
    dxfer = 0 ∷ 0 ∷ 8 ∷ 0 ∷ 0 ∷ 0 ∷ 2 ∷ 0 ∷ replicate 504 0;
    sbp = replicate 128 0;
    resid = 504;
    sb_len_wr = 0;
    status = 0;
  },
  suc k,
)

abbrev system : System ℕ ℕ
system = record {
  ioctl = reply;
  dev_open = λ path k. (true, suc k);
  dev_close = λ k. k + 100;
  exists = λ path. true;
  readable = λ path. true;
  writable = λ path. true;
  stat = stat_all;
  mounts = some (root_mount ∷ []);
  calloc = λ n. true;
  isspace = λ c. c == 32;
  for_type = λ t. none;
  null = 0;
  hdr_init = 0;
}

disk_open-mounted_example :
    disk_open system 0 sda true 70 disk_mounted_ro ≡ some (false, blank_disk 0 true, 0)
unfolding mount_point_check check_options tokens
disk_open-mounted_example =
    disk_open-mounted system 0 sda 70 disk_mounted_ro (root_mount ∷ []) 0 refl refl refl refl
      (named (codes "1") refl refl) (omega arith)

disk_open-Outcome_example :
    Ensures (Outcome system 70) (disk_open system 0 sda false 70 disk_not_mounted)
disk_open-Outcome_example =
    disk_open-Outcome system 0 sda false 70 disk_not_mounted refl refl refl refl

abbrev code_and_calls : Option (Bool × OpenDisk ℕ × ℕ) → Option (Bool × ℕ)
code_and_calls none = none
code_and_calls (some (ok, d, k)) = some (ok, k)

-- The device is opened, asked twice and closed.
open_runs : code_and_calls (disk_open system 0 sda false 70 disk_not_mounted) ≡ some (false, 103)
unfolding disk_open open_device open_sized open_error disk_close disk_dev_read_cap sg_ioctl
    sg_result transferred capacity_10_header cdb_read_capacity_10 zero_bytes parse_read_capacity_10
    get_uint32 disk_dev_identify cdb_inquiry set_uint16 sg_failed
open_runs = refl

abbrev number : List ℕ → Number
number str = record { val = 128; failed = false; rest = codes "k" }

abbrev never_same : List ℕ → List ℕ → Bool
never_same s t = false

no_force : Unforced number never_same (opt_fix ∷ opt_size (codes "128k") ∷ [])
no_force zero = (λ e. cc, λ e. cc)
no_force (suc zero) = (λ e. cc, λ e. cc)
no_force (suc (suc i)) = (λ e. cc, λ e. cc)

diskscan_cli-mounted_example :
    diskscan_cli system number never_same
      (λ name. true)
      (λ d k mode size. some (0, d, suc k))
      (opt_fix ∷ opt_size (codes "128k") ∷ [])
      (sda ∷ [])
      0
    ≡ some (1, 0)
diskscan_cli-mounted_example =
    diskscan_cli-mounted system number never_same (λ name. true)
      (λ d k mode size. some (0, d, suc k)) (opt_fix ∷ opt_size (codes "128k") ∷ []) sda 0
      (root_mount ∷ []) 0 0 refl no_force refl refl refl refl (named (codes "1") refl refl)

-- Without the option to fix, the device is opened, asked, and closed when it fails.
cli_runs :
    diskscan_cli system number never_same
      (λ name. true)
      (λ d k mode size. some (0, d, suc k))
      (opt_size (codes "128k") ∷ [])
      (sda ∷ [])
      0
    ≡ some (1, 103)
unfolding diskscan_cli run_options disk_open open_device open_sized open_error disk_close
    disk_dev_read_cap sg_ioctl sg_result transferred capacity_10_header cdb_read_capacity_10
    zero_bytes parse_read_capacity_10 get_uint32 disk_dev_identify cdb_inquiry set_uint16 sg_failed
    parse_args check_args parse_opts parse_opt str_to_scan_size suffix_factor
cli_runs = refl

-- On FreeBSD a local file system, with MNT_LOCAL among its flags, counts as mounted read-write where
-- it is mounted read-only; only MNT_RDONLY alone is seen.
freebsd_read_only :
    (freebsd_mount_state
        (record { f_mntfromname = codes "/dev/ada0p2"; f_flags = 0x1001 } ∷ [])
        (codes "/dev/ada0")
      ≡ disk_mounted_rw)
    × (freebsd_mount_state
          (record { f_mntfromname = codes "/dev/ada0p2"; f_flags = 1 } ∷ [])
          (codes "/dev/ada0")
        ≡ disk_mounted_ro)
unfolding freebsd_mount_state statfs_entries statfs_entry statfs_state raise
freebsd_read_only = (refl, refl)
