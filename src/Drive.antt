-- ===== src/Drive.antt =====
-- The scan of lib/diskscan.c on the device layer of arch/arch-linux.c and the SMART monitor. What the
-- source takes from elsewhere between two states of the kernel is a parameter: `errno`, the time that
-- passed and whether a signal came.
pub mod Sent
pub mod Kept
pub mod Stays
pub mod Requests
pub mod Returns
use diskscan.Base.{ℕ, Bool, false, Option, some, none, List, [], true}
use diskscan.Sense.Info.{zero_info}
use diskscan.Device.Types.{DiskDev, IoResult, SgHeader, SgReply, data_none, error_fatal}
use diskscan.Device.{disk_dev_read, disk_dev_write}
use diskscan.Ata.Lookup.{SmartAttrType, SmartAttrInfo}
use diskscan.Monitor.{AtaState, disk_ata_monitor}
use diskscan.Scan.Types.{ReadOutcome, Platform}

-- The kernel and the monitor's part of `disk_t`.
pub record Machine (K : Type 0) : Type 0 where
  pub kernel : K
  pub ata : AtaState

pub record Surroundings (K : Type 0) : Type 0 where
  pub errno : K → ℕ
  pub elapsed : K → K → ℕ
  pub signal : K → K → Bool

-- What a call gives after an access outside an array, where no state is left.
abbrev pub lost_read : List ℕ → ReadOutcome
lost_read buffer = record {
  buffer = buffer;
  io_res = record { result = data_none; error = error_fatal; info = zero_info; sense = [] };
  errno = 0;
  t = 0;
  stop = false;
}

module _ {K : Type 0} (ioctl : K → SgHeader → SgReply × K) (around : Surroundings K)
    (dev : DiskDev) where
  -- The timed read.
  unfoldable pub drive_read : Option (Machine K) → ℕ → ℕ → List ℕ → ReadOutcome × Option (Machine K)
  drive_read none offset size buffer = (lost_read buffer, none)
  drive_read (some m) offset size buffer =
      elim (disk_dev_read ioctl m.kernel dev offset size buffer) [
        | none ↦ (lost_read buffer, none)
        | some (t, k) ↦ (
          record {
            buffer = t.buf;
            io_res = t.io_res;
            errno = around.errno k;
            t = around.elapsed m.kernel k;
            stop = around.signal m.kernel k;
          },
          some (record m { kernel = k }),
        )
      ]

  unfoldable pub drive_write : Option (Machine K) → ℕ → ℕ → List ℕ → List ℕ × Option (Machine K)
  drive_write none offset size buffer = (buffer, none)
  drive_write (some m) offset size buffer =
      elim (disk_dev_write ioctl m.kernel dev offset size buffer) [
        | none ↦ (buffer, none)
        | some (t, k) ↦ (t.buf, some (record m { kernel = k }))
      ]

  -- The monitor of a disk that is ATA or not; a pause has some fuel, and `none` is also one that
  -- has not ended.
  unfoldable pub drive_monitor :
      Bool
      → (SmartAttrType → Option SmartAttrInfo)
      → ℕ
      → Option (Machine K)
      → Bool × Option (Machine K)
  drive_monitor is_ata for_type fuel none = (false, none)
  drive_monitor is_ata for_type fuel (some m) = elim is_ata [
    | false ↦ (false, some m)
    | true ↦ elim (disk_ata_monitor ioctl for_type fuel m.ata m.kernel) [
      | none ↦ (false, none)
      | some (s, k) ↦ (around.signal m.kernel k, some (record { kernel = k; ata = s }))
    ]
  ]

  unfoldable pub drive_platform :
      Bool → (SmartAttrType → Option SmartAttrInfo) → ℕ → Platform (Option (Machine K))
  drive_platform is_ata for_type fuel = record {
    read = drive_read;
    write = drive_write;
    monitor = drive_monitor is_ata for_type fuel;
  }
