-- ===== src/Report.antt =====
-- The text of the two logs, lib/data.c. A file is the list of characters written to it; `dec w n` is
-- what the conversion %<w>u of the C library writes for n, and it is a parameter.
pub mod Hex
pub mod HexLaws
pub mod Json
pub mod Writer
pub mod Listing
