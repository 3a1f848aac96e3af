-- ===== src/Disk.antt =====
-- Opening a disk: `disk_open`, `disk_close` and the mount check of lib/diskscan.c, and the mount
-- state and identification of arch/arch-linux.c.
pub mod Mount
pub mod MountState
pub mod Identify
pub mod Open
pub mod Opened
pub mod Generic
pub mod Freebsd
