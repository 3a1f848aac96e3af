-- ===== src/Ata/Lookup.antt =====
-- The attributes that mean the same on every drive, libscsicmd/src/ata_smart.c. The table of a drive
-- is built from the vendors' data base; `smart_attr_for_type` in it is the parameter `for_type`. An
-- `int` is its pattern of 32 bits, so that -1 is 2 ^ 32 - 1.
use diskscan.Base.{
  ℕ, ◌+◌, ◌-◌, ◌/◌, ◌%◌, ◌^◌, true, false, ◌&&◌, Option, some, none, List, [], ◌∷◌, leb, ◌==◌,
  if◌then◌else◌, ◌>>=◌, u32, uint32_max, take,
}
use diskscan.Ata.{SmartAttr}

-- `smart_attr_type_e`
pub data SmartAttrType : Type 0 where
  type_none poh temp realloc realloc_pending crc_errors : SmartAttrType

-- The fields of `smart_attr_t` that are used; `offset` is an `int`.
pub record SmartAttrInfo : Type 0 where
  pub id : ℕ
  pub offset : ℕ

abbrev pub minus_one : ℕ
minus_one = uint32_max

-- The loop over the first num_attrs attributes; the callers' negative numbers are 0.
unfoldable pub find_attr : List SmartAttr → ℕ → Option SmartAttr
find_attr [] id = none
find_attr (a ∷ attrs) id = elim (a.id == id) [ true ↦ some a | false ↦ find_attr attrs id ]

module _ (for_type : SmartAttrType → Option SmartAttrInfo) where
  unfoldable pub ata_smart_get :
      List SmartAttr → ℕ → SmartAttrType → Option (SmartAttrInfo × SmartAttr)
  ata_smart_get attrs num_attrs attr_type = do
    info ← for_type attr_type
    a ← find_attr (take num_attrs attrs) info.id
    some (info, a)

  unfoldable pub ata_smart_get_simple : List SmartAttr → ℕ → SmartAttrType → ℕ
  ata_smart_get_simple attrs num_attrs attr_type = elim (ata_smart_get attrs num_attrs attr_type) [
    | none ↦ minus_one
    | some (_, a) ↦ u32 a.raw
  ]

  -- The temperature of an attribute, then `*pmin_temp` and `*pmax_temp`. All three fields of the raw
  -- value are below 2 ^ 16, so their order as `int` is that of the numbers.
  unfoldable pub temperature_of : SmartAttrInfo → SmartAttr → ℕ × ℕ × ℕ
  temperature_of info a =
      if a.raw == 0
      then (u32 (info.offset + 2 ^ 32 - a.value), minus_one, minus_one)
      else (let min_temp = a.raw / 2 ^ 16 % 2 ^ 16 in
          let max_temp = a.raw / 2 ^ 32 % 2 ^ 16 in
          let t = a.raw % 2 ^ 16 in
          if leb t max_temp && leb min_temp t
          then (t, min_temp, max_temp)
          else (t, minus_one, minus_one))

  -- Where there is no such attribute, the two addresses keep what they held.
  unfoldable pub ata_smart_get_temperature : List SmartAttr → ℕ → ℕ → ℕ → ℕ × ℕ × ℕ
  ata_smart_get_temperature attrs num_attrs min_temp max_temp =
      elim (ata_smart_get attrs num_attrs temp) [
        | none ↦ (minus_one, min_temp, max_temp)
        | some (info, a) ↦ temperature_of info a
      ]

  -- The hours, then `*pminutes`.
  unfoldable pub ata_smart_get_power_on_hours : List SmartAttr → ℕ → ℕ × ℕ
  ata_smart_get_power_on_hours attrs num_attrs =
      (ata_smart_get_simple attrs num_attrs poh, minus_one)

  unfoldable pub ata_smart_get_num_reallocations : List SmartAttr → ℕ → ℕ
  ata_smart_get_num_reallocations attrs num_attrs = ata_smart_get_simple attrs num_attrs realloc

  unfoldable pub ata_smart_get_num_pending_reallocations : List SmartAttr → ℕ → ℕ
  ata_smart_get_num_pending_reallocations attrs num_attrs =
      ata_smart_get_simple attrs num_attrs realloc_pending

  unfoldable pub ata_smart_get_num_crc_errors : List SmartAttr → ℕ → ℕ
  ata_smart_get_num_crc_errors attrs num_attrs = ata_smart_get_simple attrs num_attrs crc_errors
