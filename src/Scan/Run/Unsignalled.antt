-- ===== src/Scan/Run/Unsignalled.antt =====
-- A scan of lib/diskscan.c that no signal stops.
use diskscan.Base.{ℕ, ◌≡◌, false, List}
use diskscan.Scan.Types.{Platform}
use diskscan.Scan.Part.{Verdict}

-- No signal comes in a read or in the monitor.
pub record Unsignalled {W : Type 0} (platform : Platform W) : Type 0 where
  pub read :
      (w : W) (offset size : ℕ) (buffer : List ℕ)
      → (platform.read w offset size buffer).0.stop ≡ false
  pub monitor : (w : W) → (platform.monitor w).0 ≡ false
