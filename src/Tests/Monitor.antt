-- ===== src/Tests/Monitor.antt =====
-- The SMART monitor of lib/diskscan.c and a drive whose temperature changes.
use diskscan.Base.{
  ℕ, ◌+◌, ◌≤◌, ◌≡◌, refl, true, false, some, none, Option, List, [], ◌∷◌, ◌++◌, replicate, arith,
  ◌==◌, ◌>>=◌, if◌then◌else◌,
}
use diskscan.Device.Types.{SgReply}
use diskscan.Device.{sg_ioctl, sg_result, sg_failed, transferred}
use diskscan.Ata.{
  SmartAttr, max_smart_attrs, ata_parse_ata_smart_read_data, ata_checksum_verify, ata_calc_checksum,
  byte_sum, read_attrs, read_attr, raw_value,
}
use diskscan.Ata.Lookup.{
  SmartAttrType, SmartAttrInfo, temp, minus_one, ata_smart_get_temperature, ata_smart_get,
  find_attr, temperature_of,
}
use diskscan.Monitor.{
  AtaState, new_attrs, disk_ata_monitor, disk_smart_attributes, disk_dev_cdb_in, pause,
}
use diskscan.Monitor.Polls.{Behaves}
use diskscan.Monitor.Pause.{clocked, Cool, disk_ata_monitor_ends}

-- The temperature is attribute 194.
abbrev by_type : SmartAttrType → Option SmartAttrInfo
by_type temp = some (record { id = 194; offset = 150 })
by_type _ = none

-- A page whose only attribute is a temperature of 70 degrees.
abbrev hot_page : List ℕ
hot_page = 16 ∷ 0 ∷ 194 ∷ 0x22 ∷ 0 ∷ 100 ∷ 100 ∷ 70 ∷ replicate 503 0 ++ 254 ∷ []

abbrev reply : List ℕ → SgReply
reply page = record {
  failed = false;
  dxfer = page;
  sbp = replicate 128 0;
  resid = 0;
  sb_len_wr = 0;
  status = 0;
}

-- Hot, but for the time 3, at which the request fails.
abbrev fails_at_3 : ℕ → SgReply
fails_at_3 t = if t == 3 then record (reply hot_page) { failed = true } else reply hot_page

fails_at_3-Behaves : (t : ℕ) → Behaves (fails_at_3 t)
fails_at_3-Behaves t = record { page = ground arith; sense = ground arith }

fails_at_3-Cool : Cool fails_at_3 by_type 3
unfolding disk_smart_attributes disk_dev_cdb_in sg_ioctl sg_failed
fails_at_3-Cool attrs filled num n k lo hi e g = ground (arith, e)

abbrev untripped : AtaState
untripped = record {
  is_smart_tripped = false;
  smart = new_attrs;
  smart_num = 0;
  last_temp = 30;
  last_reallocs = 4;
  last_pending_reallocs = 0;
  last_crc_errors = 0;
}

disk_ata_monitor_ends_example :
    (s' : AtaState) × (t' : ℕ) × (disk_ata_monitor (clocked fails_at_3) by_type 4 untripped 0
      ≡ some (s', t'))
    × (t' ≤ 3 + 1)
disk_ata_monitor_ends_example =
    disk_ata_monitor_ends fails_at_3 by_type 4 0 3 untripped fails_at_3-Behaves fails_at_3-Cool
      (omega arith) (omega arith)

-- The page goes on showing 70 degrees, in its third entry; the second is empty.
abbrev gap_page : List ℕ
gap_page =
    16 ∷ 0 ∷ 5 ∷ 0x33 ∷ 0 ∷ 100 ∷ 100 ∷ 3 ∷ replicate 18 0
    ++ 194 ∷ 0x22 ∷ 0 ∷ 100 ∷ 100 ∷ 70 ∷ replicate 479 0
    ++ 251 ∷ []

abbrev gap_reading : Option (ℕ × List SmartAttr × ℕ)
gap_reading = disk_smart_attributes (clocked (λ t. reply gap_page)) 1 new_attrs max_smart_attrs

gap_hot :
    ◌>>=◌ {B = ℕ} gap_reading
      (λ (n, smart, k). some (ata_smart_get_temperature by_type smart n minus_one minus_one).0)
    ≡ some 70
unfolding disk_smart_attributes disk_dev_cdb_in sg_ioctl sg_result transferred
    ata_parse_ata_smart_read_data ata_checksum_verify ata_calc_checksum byte_sum read_attrs
    read_attr raw_value ata_smart_get_temperature ata_smart_get find_attr temperature_of
gap_hot = refl

-- A single poll ends the pause: it asks for two entries, and the temperature is in the third.
gap_resumed :
    (gap_reading >>= λ (n, smart, k).
    pause (clocked (λ t. reply gap_page)) by_type 2 k smart n 70 minus_one minus_one >>= λ r.
    some r.1)
    ≡ some 3
unfolding disk_smart_attributes disk_dev_cdb_in sg_ioctl sg_result transferred pause
    ata_parse_ata_smart_read_data ata_checksum_verify ata_calc_checksum byte_sum read_attrs
    read_attr raw_value ata_smart_get_temperature ata_smart_get find_attr temperature_of
gap_resumed = refl
