-- ===== src/Scan.antt =====
-- lib/diskscan.c: the surface scan. Its parts are the data (Types), the order of
-- the reads (Order), the buckets of a latency graph (Buckets), one read (Part),
-- one stride (Stride) and the whole scan (Run).
pub mod Types
pub mod Order
pub mod Buckets
pub mod Part
pub mod Stride
pub mod Run
