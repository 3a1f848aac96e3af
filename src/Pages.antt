-- ===== src/Pages.antt =====
-- The pages a SCSI disk describes itself with, in the headers of libscsicmd/include: log pages
-- (parse_log_sense.h), mode pages (parse_mode_sense.h), defect lists (parse_read_defect_data.h),
-- diagnostics (parse_receive_diagnostics.h) and vital product data (parse_extended_inquiry.h).
-- A pointer into a buffer is its offset from the start; a read past the end of a buffer is `none`.
pub mod Log
pub mod Supported
pub mod LogWalk
pub mod Mode
pub mod ModeWalk
pub mod Defects
pub mod Diagnostics
pub mod StrCpy
