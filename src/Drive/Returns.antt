-- ===== src/Drive/Returns.antt =====
-- When a scan on the device layer of arch/arch-linux.c returns, and what it has asked by then.
