-- ===== src/Scan/Run/Total.antt =====
-- When a sequential scan, `disk_scan` of lib/diskscan.c, returns.
use diskscan.Scan.Run.Ready.{Ready}
