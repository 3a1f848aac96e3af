-- ===== src/Monitor.antt =====
-- The SMART monitor of a scan: lib/disk.c and the `disk_ata_monitor` functions of lib/diskscan.c.
-- The parameters are the kernel's answer to `ioctl(SG_IO)`, over its own state, and the drive's table
-- of attributes. An `int` is its pattern of 32 bits. Messages and the spinner are left out. `none` is
-- an access outside an array, or a pause that has not ended.
pub mod Latch
pub mod Polls
pub mod Pause
use diskscan.Base.{
  ℕ, zero, suc, Bool, true, false, not, ◌&&◌, Option, some, none, List, replicate, ltb, ◌==◌,
  if◌then◌else◌, slt32, ◌>>=◌,
}
use diskscan.Sense.Info.{zero_status}
use diskscan.Device.Types.{SgHeader, SgReply, from_dev, data_full}
use diskscan.Device.{SgResult, sg_ioctl, long_timeout, new_cdb, command}
use diskscan.Scan.Part.{is_full}
use diskscan.Ata.{SmartAttr, ata_parse_ata_smart_read_data, max_smart_attrs}
use diskscan.Ata.Passthrough.{cdb_ata_smart_return_status, cdb_ata_smart_read_data}
use diskscan.Ata.Status.{ata_smart_return_status_result}
use diskscan.Ata.Lookup.{
  SmartAttrType, SmartAttrInfo, minus_one, ata_smart_get_temperature,
  ata_smart_get_num_reallocations, ata_smart_get_num_pending_reallocations,
  ata_smart_get_num_crc_errors,
}

-- `ata_state_t`, less the table of attributes.
pub record AtaState : Type 0 where
  pub is_smart_tripped : Bool
  pub smart : List SmartAttr
  pub smart_num : ℕ
  pub last_temp : ℕ
  pub last_reallocs : ℕ
  pub last_pending_reallocs : ℕ
  pub last_crc_errors : ℕ

-- `TEMP_THRESHOLD`
abbrev pub temp_threshold : ℕ
temp_threshold = 65

-- The attributes of an array on the stack, which is not set before it is filled.
abbrev pub new_attrs : List SmartAttr
new_attrs =
    replicate max_smart_attrs
      (record { id = 0; status = 0; value = 0; lowest = 0; threshold = 0; raw = 0 })

-- The requests, with the buffer as it is on the stack.
abbrev pub smart_header : List ℕ × ℕ → SgHeader
smart_header c = record {
  direction = from_dev;
  cdb = command c;
  dxfer = replicate 512 0;
  mx_sb_len = 128;
  timeout = long_timeout;
}

unfoldable pub ata_test_reallocs :
    (SmartAttrType → Option SmartAttrInfo) → AtaState → List SmartAttr → ℕ → AtaState
ata_test_reallocs for_type s smart num =
    let reallocs = ata_smart_get_num_reallocations for_type smart num in
    let pending = ata_smart_get_num_pending_reallocations for_type smart num in
    record s {
      last_reallocs = if slt32 s.last_reallocs reallocs then reallocs else s.last_reallocs;
      last_pending_reallocs =
          if not (pending == s.last_pending_reallocs) then pending else s.last_pending_reallocs;
    }

unfoldable pub ata_test_crc_errors :
    (SmartAttrType → Option SmartAttrInfo) → AtaState → List SmartAttr → ℕ → AtaState
ata_test_crc_errors for_type s smart num =
    let errors = ata_smart_get_num_crc_errors for_type smart num in
    record s {
      last_crc_errors = if not (errors == s.last_crc_errors) then errors else s.last_crc_errors;
    }

-- The temperature is remembered as it was before a pause.
unfoldable pub note_temp : AtaState → ℕ → AtaState
note_temp s t = record s { last_temp = if not (t == s.last_temp) then t else s.last_temp }

-- `disk_smart_trip(&disk->dev) == 1`
abbrev pub is_trip : Option Bool → Bool
is_trip (some b) = b
is_trip none = false

module _ {K : Type 0} (ioctl : K → SgHeader → SgReply × K) where
  -- The sense buffer is the second component.
  unfoldable pub disk_dev_cdb_in : K → SgHeader → ℕ → Option (SgResult × List ℕ × K)
  disk_dev_cdb_in k header buf_size =
      sg_ioctl ioctl k header buf_size >>= λ (s, k'). some (s, (ioctl k header).0.sbp, k')

  -- The result is `none` for -1, else whether the drive has tripped.
  unfoldable pub disk_smart_trip : K → Option (Option Bool × K)
  disk_smart_trip k = do
    (s, sense, k') ← disk_dev_cdb_in k (smart_header (cdb_ata_smart_return_status new_cdb)) 512
    r ← ata_smart_return_status_result sense s.sense_read zero_status
    some (elim r [ none ↦ none | some smart_ok ↦ some (not smart_ok) ], k')

  -- The returned number, the array, and the kernel's state.
  unfoldable pub disk_smart_attributes : K → List SmartAttr → ℕ → Option (ℕ × List SmartAttr × K)
  disk_smart_attributes k attrs max_attrs = do
    (s, _, k') ← disk_dev_cdb_in k (smart_header (cdb_ata_smart_read_data new_cdb)) 512
    if not (is_full s.io_res.result)
        then some (minus_one, attrs, k')
        else (ata_parse_ata_smart_read_data s.buf attrs max_attrs >>= λ r.
            some (elim r [ none ↦ (minus_one, attrs, k') | some (n, filled) ↦ (n, filled, k') ]))

  module _ (for_type : SmartAttrType → Option SmartAttrInfo) where
    -- The loop that waits for the drive to cool down, with fuel.
    unfoldable pub pause : ℕ → K → List SmartAttr → ℕ → ℕ → ℕ → ℕ → Option (List SmartAttr × K)
    pause zero k smart num temp min_temp max_temp = none
    pause (suc fuel) k smart num temp min_temp max_temp =
        if slt32 temp temp_threshold
        then some (smart, k)
        else (disk_smart_attributes k smart num >>= λ (n, filled, k').
            let (t, lo, hi) = ata_smart_get_temperature for_type filled n min_temp max_temp in
            let rest = pause fuel k' filled n t lo hi in
            if slt32 0 n then rest else some (filled, k'))

    unfoldable pub ata_test_temp :
        ℕ → AtaState → K → List SmartAttr → ℕ → Option (AtaState × List SmartAttr × K)
    ata_test_temp fuel s k smart num =
        let (t, lo, hi) = ata_smart_get_temperature for_type smart num minus_one minus_one in
        pause fuel k smart num t lo hi >>= λ (filled, k'). some (note_temp s t, filled, k')

    unfoldable pub disk_ata_monitor : ℕ → AtaState → K → Option (AtaState × K)
    disk_ata_monitor fuel s k = do
      (tripped, k1) ← if s.is_smart_tripped then some (none, k) else disk_smart_trip k
      (num, smart, k2) ← disk_smart_attributes k1 new_attrs max_smart_attrs
      let s1 = if is_trip tripped then record s { is_smart_tripped = true } else s
      if not (slt32 0 num) then some (s1, k2) else (do
        (s2, filled, k3) ← ata_test_temp fuel s1 k2 smart num
        let s3 = ata_test_reallocs for_type s2 filled num
        some (ata_test_crc_errors for_type s3 filled num, k3))

    -- The array of the state is filled from the entries that it has.
    unfoldable pub disk_ata_monitor_start : AtaState → K → Option (AtaState × K)
    disk_ata_monitor_start s k = do
      (tripped, k1) ← disk_smart_trip k
      (num, smart, k2) ← disk_smart_attributes k1 s.smart max_smart_attrs
      let s1 = record s { is_smart_tripped = is_trip tripped; smart = smart; smart_num = num }
      if not (slt32 0 num)
          then some (s1, k2)
          else some (
            record s1 {
              last_temp = (ata_smart_get_temperature for_type smart num minus_one minus_one).0;
              last_reallocs = ata_smart_get_num_reallocations for_type smart num;
              last_pending_reallocs = ata_smart_get_num_pending_reallocations for_type smart num;
              last_crc_errors = ata_smart_get_num_crc_errors for_type smart num;
            },
            k2,
          )

    -- Only messages depend on what is read; the look-ups read `smart_table`, which may be NULL.
    unfoldable pub disk_ata_monitor_end : Bool → K → Option K
    disk_ata_monitor_end has_table k = do
      (_, k1) ← disk_smart_trip k
      (_, _, k2) ← disk_smart_attributes k1 new_attrs max_smart_attrs
      if has_table then some k2 else none
