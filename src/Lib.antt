-- ===== src/Lib.antt =====
-- A model of diskscan, the disk surface scanner, with the theorems that make it correct.
--
-- The program reads a whole disk in strides, times each read, may rewrite what is slow or broken,
-- and concludes whether the disk is sound. From the bottom up:
--
-- - Wire: the byte fields of libscsicmd/include/scsicmd_utils.h and the setters of
--   libscsicmd/src/cdb.c (get_uint16 to get_uint64, set_uint16 to set_uint64, safe_len).
-- - Cdb: the command builders of libscsicmd/src/cdb.c, under the source's names; Cdb/Request is an
--   independent reading of a command block, Cdb/Rw the theorems that relate the two.
-- - Sense: libscsicmd/src/parse_sense.c, with the records of libscsicmd/include/scsicmd.h in
--   Sense/Info. Sense/Reads has the bounds, Sense/Key and Sense/Fixed what is reported.
-- - Ata: libscsicmd/src/ata.c and libscsicmd/include/ata.h, with the commands in Ata/Passthrough, the
--   sense status in Ata/Status and libscsicmd/src/ata_smart.c in Ata/Lookup; Ata/Registers is an
--   independent reading of the commands. The drive's table of attributes is a parameter.
-- - Monitor: lib/disk.c and the disk_ata_monitor functions of lib/diskscan.c, over the kernel;
--   Monitor/Polls and Monitor/Pause are about its requests and its loop.
-- - Capacity: libscsicmd/src/parse_read_cap.c.
-- - Device: arch/arch-linux.c (sense_to_error, sg_ioctl, disk_dev_read, disk_dev_write,
--   disk_dev_read_cap). The kernel is a function from its own state and an SG_IO request to a reply.
--   Device/Posix has the opening, reads and writes of arch/arch-posix.c.
-- - Median: include/median.h; Median/Bounds, Median/Exchange and Median/Ends are about its
--   loops, Median/Swapped, Median/Sorts and Median/Rank about the order that they make.
-- - Scan: lib/diskscan.c with the types of include/diskscan.h. Scan/Order is the plan of a stride's
--   reads, Scan/Buckets the latency graph, Scan/Part one read with its accounting, its logging
--   (lib/data.c) and its repair, Scan/Stride the loop over a plan, Scan/Run the loop over the disk and
--   the conclusion; the modules Returns, with Scan/Part/Repair, Scan/Stride/Sizes, Scan/Stride/Room,
--   Scan/Run/Ready, Scan/Run/Plan and Scan/Run/Total, are about when it returns, Scan/Run/Tally,
--   Scan/Run/Verdict and Scan/Run/Unsignalled about its conclusion, Scan/Run/Kept and Scan/Run/ReadOnly
--   about what it does to the platform. The device, the SMART monitor and HdrHistogram are parameters.
-- - Pages: the headers parse_log_sense.h, parse_mode_sense.h, parse_read_defect_data.h,
--   parse_receive_diagnostics.h and parse_extended_inquiry.h of libscsicmd/include, and
--   libscsicmd/src/log_sense.c. The macros that head a loop are functions to what its body sees;
--   Pages/LogWalk, Pages/Supported, Pages/ModeWalk and Pages/StrCpy are about them.
-- - Inquiry: libscsicmd/src/parse_inquiry.c, ata_get_string and strtrim of arch/arch-linux.c, with the
--   texts of strings in Inquiry/Text.
-- - Disk: disk_open and disk_close of lib/diskscan.c (Disk/Open), with the mount state (Disk/Mount) and
--   the identification (Disk/Identify) of arch/arch-linux.c. Disk/Freebsd and Disk/Generic have what
--   arch/arch-freebsd.c and arch/arch-generic.c do instead, Disk/Freebsd/Mounts is about the mounts.
-- - Drive: the scan on the device layer of arch/arch-linux.c and the monitor, over one kernel;
--   Drive/Sent, Drive/Kept and Drive/Requests are about the requests that reach the drive, Drive/Stays
--   and Drive/Returns about how such a scan ends.
-- - Report: lib/data.c. Report/Json has the texts of the parts, Report/Writer the two files, and
--   Report/Listing relates them to the events that Scan logs.
-- - SystemId: lib/system_id.c, with mac_read of arch/arch-linux.c in SystemId/Mac. What the commands
--   print, the interfaces, isspace and SHA-1 are parameters; SystemId/Texts, SystemId/Names and
--   SystemId/Read are about the texts that are left.
-- - Cli: cli/cli.c, with the options in Cli/Options, the latency graph in Cli/Graph and diskscan_cli in
--   Cli/Main, which takes the scan as a parameter.
-- - Tests: the theorems at concrete inputs.
--
-- State is passed explicitly: a function that updates *disk or *state returns the new record. An array
-- access outside its array is none, so that a result some says that the code stayed inside its arrays;
-- the read buffer is one of them, and a read or a write of more bytes than it has is none.
-- Numbers are natural numbers with the wrap of their C type written out; an int or int64_t is its bit
-- pattern, compared by slt32 and slt64. A byte is below 256, so an or of shifted bytes is a sum.
--
-- Fuel: a descriptor takes two bytes of the sense data at least, so its length is enough for the loop
-- over the descriptors. The loop over the strides has the length of the latency graph and one more.
-- The repair loop has one round for each byte of its region and one more. The loops of the median have
-- the length of their array and one more. The pause for a hot drive has any fuel: it lasts as long as
-- the drive stays hot, and a poll for each second until it has cooled down is enough. The walk over
-- mode pages has any fuel. The walk over log parameters has the length of the page and one more: a
-- parameter takes four bytes. The loops of strtrim have the length of their array, since they leave a
-- string at its zero.
--
-- Not modelled: SHA-1 (a public-domain copy), the progress bar and
-- HdrHistogram (copies of other projects), the SMART data base and the fields of ata_parse.h (generated),
-- the tables of names, messages and scheduling. Of the C library, getopt_long, strtol, strcasecmp,
-- isspace and the conversion of numbers are parameters; memcpy, strncpy, strcpy, strlen and strtok are written out where they are used.
pub mod Base
pub mod Wire
pub mod Cdb
pub mod Sense
pub mod Capacity
pub mod Device
pub mod Median
pub mod Scan
pub mod Ata
pub mod Monitor
pub mod Pages
pub mod Inquiry
pub mod Disk
pub mod Drive
pub mod Report
pub mod SystemId
pub mod Cli
pub mod Tests
