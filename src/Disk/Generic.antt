-- ===== src/Disk/Generic.antt =====
-- arch/arch-generic.c: the size that `lseek` finds, the names of a disk that is not asked for them,
-- and no network address.
use diskscan.Base.{ℕ, false, Option, none, some, List, [], ◌∷◌, get_elem?, set, ◌>>=◌}
use diskscan.Disk.Identify.{Identity, memcpy}

-- `disk_dev_read_cap`; the argument is the offset of the end, `none` where `lseek` fails.
unfoldable pub generic_read_cap : Option ℕ → Option (ℕ × ℕ)
generic_read_cap none = none
generic_read_cap (some size) = some (size, 512)

-- "UNKN" and "UNKNOWN", with their zeros.
abbrev pub unkn : List ℕ
unkn = 85 ∷ 78 ∷ 75 ∷ 78 ∷ 0 ∷ []

abbrev pub unknown : List ℕ
unknown = 85 ∷ 78 ∷ 75 ∷ 78 ∷ 79 ∷ 87 ∷ 78 ∷ 0 ∷ []

-- `disk_dev_identify`, which succeeds.
unfoldable pub generic_identify : Identity → Option Identity
generic_identify d = do
  vendor ← memcpy 8 unknown d.vendor
  model ← memcpy 8 unknown d.model
  fw_rev ← memcpy 5 unkn d.fw_rev
  serial ← memcpy 8 unknown d.serial
  old ← get_elem? d.ata_buf 0
  some (record {
    vendor = vendor;
    model = model;
    fw_rev = fw_rev;
    serial = serial;
    is_ata = false;
    ata_buf = set d.ata_buf 0 0;
    ata_buf_len = 0;
  })

-- `mac_read`
unfoldable pub generic_mac_read : List ℕ → Option (List ℕ)
generic_mac_read buf = get_elem? buf 0 >>= λ old. some (set buf 0 0)
