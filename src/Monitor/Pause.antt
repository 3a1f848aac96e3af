-- ===== src/Monitor/Pause.antt =====
-- When the pause of the SMART monitor of lib/diskscan.c for a hot drive ends.
use diskscan.Base.{
  ℕ, zero, suc, ◌+◌, ◌≤◌, ◌-◌, ◌<◌, ◌≡◌, refl, Bool, true, not, Option, some, none, List, length,
  slt32, if◌then◌else◌, arith, Gives, gives, Gives-step, Gives-mono, Gives-if_of, Gives-value,
  ◌>>=◌,
}
use mathlib.Core.Path.{subst}
use diskscan.Device.Types.{SgHeader, SgReply}
use diskscan.Ata.{SmartAttr, max_smart_attrs}
use diskscan.Ata.Lookup.{SmartAttrType, SmartAttrInfo, ata_smart_get_temperature}
use diskscan.Monitor.{
  AtaState, disk_smart_trip, disk_smart_attributes, pause, temp_threshold, new_attrs, is_trip,
  ata_test_temp, ata_test_reallocs, ata_test_crc_errors, disk_ata_monitor,
}
use diskscan.Monitor.Polls.{Behaves, poll-Gives, trip-Gives}

-- A drive that answers at each time as it then does.
abbrev pub clocked : (ℕ → SgReply) → ℕ → SgHeader → SgReply × ℕ
clocked answers t header = (answers t, suc t)

module _ (answers : ℕ → SgReply) (for_type : SmartAttrType → Option SmartAttrInfo) where
  -- Whatever is asked for at time t, the temperature in the answer is below the threshold, or there
  -- are no attributes in it.
  abbrev pub Cool : ℕ → Type 0
  Cool t =
      (attrs filled : List SmartAttr) (num n k lo hi : ℕ)
      → disk_smart_attributes (clocked answers) t attrs num ≡ some (n, filled, k)
      → slt32 0 n ≡ true
      → slt32 (ata_smart_get_temperature for_type filled n lo hi).0 temp_threshold ≡ true

  cold_start :
      (fuel t temp lo hi num : ℕ) (smart : List SmartAttr)
      → slt32 temp temp_threshold ≡ true
      → pause (clocked answers) for_type (suc fuel) t smart num temp lo hi ≡ some (smart, t)
  unfolding pause
  cold_start fuel t temp lo hi num smart h = rw h refl

  -- What a poll at time t leads to, if the rest of the pause does what it should from time t + 1 on.
  turn :
      (fuel t e num temp lo hi : ℕ) (smart : List SmartAttr)
      → Behaves (answers t)
      → num ≤ length smart
      → t ≤ e
      → ((n : ℕ) (filled : List SmartAttr) (lo' hi' : ℕ)
          → disk_smart_attributes (clocked answers) t smart num ≡ some (n, filled, suc t)
          → slt32 0 n ≡ true
          → n ≤ length filled
          → let m = ata_smart_get_temperature for_type filled n lo' hi' in
            Gives
              (λ r. (suc t ≤ r.1) × (r.1 ≤ e + 1))
              (pause (clocked answers) for_type fuel (suc t) filled n m.0 m.1 m.2))
      → Gives
          (λ r. (t ≤ r.1) × (r.1 ≤ e + 1))
          (pause (clocked answers) for_type (suc fuel) t smart num temp lo hi)
  unfolding pause
  turn fuel t e num temp lo hi smart h room le rest =
      Gives-if_of (slt32 temp temp_threshold) (λ c. gives _ (omega arith, omega arith))
        (λ c.
          let ((n, filled, k), runs, p) =
            Gives-value (poll-Gives (clocked answers) t smart num room h) in
          let at : disk_smart_attributes (clocked answers) t smart num ≡ some (n, filled, suc t) =
            rw (← p.0) runs in
          rw at (
            Gives-if_of (slt32 0 n)
              (λ g.
                Gives-mono (rest n filled lo hi at g (p.2 g))
                  λ r q. (omega (arith, q.0), omega (arith, q.1)))
              (λ g. gives _ (omega arith, omega arith))))

  -- The pause of a drive whose every answer fills the buffers ends by the time at which it has cooled
  -- down, after one poll at each time up to that.
  pub pause-Gives :
      (d fuel t : ℕ) (smart : List SmartAttr) (num temp lo hi : ℕ)
      → d < fuel
      → ((i : ℕ) → Behaves (answers i))
      → num ≤ length smart
      → Cool (d + t)
      → Gives
          (λ r. (t ≤ r.1) × (r.1 ≤ d + t + 1))
          (pause (clocked answers) for_type (suc fuel) t smart num temp lo hi)
  pause-Gives d zero t smart num temp lo hi f h room cool = absurd (omega arith)
  pause-Gives zero (suc fuel) t smart num temp lo hi f h room cool =
      turn (suc fuel) t (0 + t) num temp lo hi smart (h t) room (omega arith)
        λ n filled lo' hi' at g inside.
          let now : Cool t = subst Cool (omega arith) cool in
          rw (cold_start fuel (suc t) _ _ _ n filled (now smart filled num n (suc t) lo' hi' at g))
            (gives _ (omega arith, omega arith))
  pause-Gives (suc d) (suc fuel) t smart num temp lo hi f h room cool =
      turn (suc fuel) t (suc d + t) num temp lo hi smart (h t) room (omega arith)
        λ n filled lo' hi' at g inside.
          Gives-mono
            (pause-Gives d fuel (suc t) filled n _ _ _ (omega arith) h inside
              (subst Cool (omega arith) cool))
            λ r q. (omega (arith, q.0), omega (arith, q.1))

  temp-Gives :
      (d fuel t : ℕ) (s : AtaState) (smart : List SmartAttr) (num : ℕ)
      → d < fuel
      → ((i : ℕ) → Behaves (answers i))
      → num ≤ length smart
      → Cool (d + t)
      → Gives
          (λ r. r.2 ≤ d + t + 1)
          (ata_test_temp (clocked answers) for_type (suc fuel) s t smart num)
  unfolding ata_test_temp
  temp-Gives d fuel t s smart num f h room cool =
      Gives-step _ (pause-Gives d fuel t smart num _ _ _ f h room cool) λ q b. gives _ b.1

  -- A turn of the monitor after its first look at the status.
  after_trip :
      (fuel t T : ℕ) (s : AtaState) (tripped : Option Bool)
      → ((i : ℕ) → Behaves (answers i))
      → t < T
      → T < t + fuel
      → Cool T
      → Gives {A = AtaState × ℕ}
          (λ r. r.1 ≤ T + 1)
          (disk_smart_attributes (clocked answers) t new_attrs max_smart_attrs
            >>= λ (num, smart, k2).
                let s1 = if is_trip tripped then record s { is_smart_tripped = true } else s in
                if not (slt32 0 num)
                then some (s1, k2)
                else (ata_test_temp (clocked answers) for_type fuel s1 k2 smart num
                    >>= λ (s2, filled, k3).
                        let s3 = ata_test_reallocs for_type s2 filled num in
                        some (ata_test_crc_errors for_type s3 filled num, k3)))
  after_trip zero t T s tripped h before f cool = absurd (omega arith)
  after_trip (suc fuel) t T s tripped h before f cool =
      Gives-step _ (poll-Gives (clocked answers) t new_attrs max_smart_attrs (omega arith) (h t))
        λ a p.
          Gives-if_of (not (slt32 0 a.0)) (λ c. gives _ (omega (arith, p.0)))
            (λ c.
              let positive : slt32 0 a.0 ≡ true = ground (arith, c) in
              Gives-step _
                (temp-Gives (T - a.2) fuel a.2 _ a.1 a.0 (omega (arith, p.0)) h (p.2 positive)
                  (subst Cool (omega (arith, p.0)) cool))
                λ r b. gives _ (omega (arith, p.0, b)))

  -- On a drive whose answers fill the buffers and which has cooled down, or gives no attributes, at a
  -- time after the first two requests of a turn of the monitor, the turn returns, at the latest after
  -- the request of that time, given fuel for a poll at each time until then.
  pub disk_ata_monitor_ends :
      (fuel t T : ℕ) (s : AtaState)
      → ((i : ℕ) → Behaves (answers i))
      → Cool T
      → t + 1 < T
      → T < t + fuel
      → (s' : AtaState) × (t' : ℕ) × (disk_ata_monitor (clocked answers) for_type fuel s t
          ≡ some (s', t'))
        × (t' ≤ T + 1)
  unfolding disk_ata_monitor
  disk_ata_monitor_ends fuel t T s h cool after f =
      let ((s', t'), e, p) = Gives-value (
        Gives-step _ (status fuel t T s h after f)
          λ r q. after_trip fuel r.1 T s r.0 h (omega (arith, q.1)) (omega (arith, q.0)) cool) in
      (s', t', e, p)
    where
      status :
          (fuel t T : ℕ) (s : AtaState)
          → ((i : ℕ) → Behaves (answers i))
          → t + 1 < T
          → T < t + fuel
          → Gives
              (λ r. (t ≤ r.1) × (r.1 ≤ t + 1))
              (if s.is_smart_tripped then some (none, t) else disk_smart_trip (clocked answers) t)
      status fuel t T s h after f =
          Gives-if_of s.is_smart_tripped (λ e. gives _ (omega arith, omega arith))
            (λ e.
              Gives-mono (trip-Gives (clocked answers) t (h t))
                λ r q. (omega (arith, q), omega (arith, q)))
