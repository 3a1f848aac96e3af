-- ===== src/Monitor/Latch.antt =====
-- What the SMART monitor of lib/diskscan.c never takes back.
use diskscan.Base.{
  ℕ, Bool, true, false, ◌≡◌, refl, Option, some, none, List, slt32, if◌then◌else◌, not, Ensures,
  value, Ensures-bind, Ensures-step, Ensures-if, Ensures-elim, arith,
}
use diskscan.Device.Types.{SgHeader, SgReply}
use diskscan.Ata.{SmartAttr, max_smart_attrs}
use diskscan.Ata.Lookup.{SmartAttrType, SmartAttrInfo}
use diskscan.Monitor.{
  AtaState, ata_test_reallocs, ata_test_crc_errors, note_temp, ata_test_temp, disk_ata_monitor,
  disk_smart_trip, disk_smart_attributes, pause, is_trip, new_attrs,
}

-- A later state: the trip stays, the count of reallocations is not lower as an `int`, and the
-- attributes of the start are the same.
pub record Later (s s' : AtaState) : Type 0 where
  pub tripped : s.is_smart_tripped ≡ true → s'.is_smart_tripped ≡ true
  pub reallocs : slt32 s'.last_reallocs s.last_reallocs ≡ false
  pub smart : s'.smart ≡ s.smart
  pub smart_num : s'.smart_num ≡ s.smart_num

module _ {K : Type 0} (ioctl : K → SgHeader → SgReply × K)
    (for_type : SmartAttrType → Option SmartAttrInfo) where
  tests-Later :
      (trip : Bool) (s : AtaState) (t : ℕ) (filled : List SmartAttr) (num : ℕ)
      → let s1 = if trip then record s { is_smart_tripped = true } else s in
        Later s (
          ata_test_crc_errors for_type
            (ata_test_reallocs for_type (note_temp s1 t) filled num)
            filled
            num)
  unfolding ata_test_crc_errors ata_test_reallocs note_temp
  tests-Later trip s t filled num = record {
    tripped = ground arith;
    reallocs = ground arith;
    smart = ground arith;
    smart_num = ground arith;
  }

  trip-Later :
      (trip : Bool) (s : AtaState)
      → Later s (if trip then record s { is_smart_tripped = true } else s)
  trip-Later trip s = record {
    tripped = ground arith;
    reallocs = ground arith;
    smart = ground arith;
    smart_num = ground arith;
  }

  noted :
      (fuel : ℕ) (s : AtaState) (k : K) (smart : List SmartAttr) (num : ℕ)
      → Ensures
          (λ r. (t : ℕ) × (r.0 ≡ note_temp s t))
          (ata_test_temp ioctl for_type fuel s k smart num)
  unfolding ata_test_temp
  noted fuel s k smart num =
      Ensures-bind (pause ioctl for_type fuel k smart num _ _ _) _ λ p. value _ (_, refl)

  monitor-Later :
      (fuel : ℕ) (s : AtaState) (k : K)
      → Ensures (λ r. Later s r.0) (disk_ata_monitor ioctl for_type fuel s k)
  unfolding disk_ata_monitor
  monitor-Later fuel s k =
      Ensures-bind (if s.is_smart_tripped then some (none, k) else disk_smart_trip ioctl k) _ λ t.
        Ensures-bind (disk_smart_attributes ioctl t.1 new_attrs max_smart_attrs) _ λ a.
          Ensures-if (not (slt32 0 a.0)) (value _ (trip-Later (is_trip t.0) s)) (
            Ensures-step _ (noted fuel _ a.2 a.1 a.0)
              λ r q. value _ (rw q.1 (tests-Later (is_trip t.0) s q.0 r.1 a.0)))

  -- If a turn of the monitor returns, a trip that was seen is still set, the remembered count of
  -- reallocations is not lower, compared as `int`, and the attributes of the start are untouched.
  pub disk_ata_monitor_latch :
      (fuel : ℕ) (s : AtaState) (k : K) {s' : AtaState} {k' : K}
      → disk_ata_monitor ioctl for_type fuel s k ≡ some (s', k')
      → Later s s'
  disk_ata_monitor_latch fuel s k e =
      Ensures-elim (disk_ata_monitor ioctl for_type fuel s k) (monitor-Later fuel s k) e
