-- ===== src/Tests.antt =====
-- The theorems at concrete inputs, and the definitions run on small ones.
mod Scsi
mod Drive
mod Scans
mod Requests
mod Smart
mod Monitor
mod Names
mod Disks
mod Files
mod Machine
