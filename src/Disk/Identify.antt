-- ===== src/Disk/Identify.antt =====
-- `disk_dev_identify` of arch/arch-linux.c: the names of a disk from its INQUIRY data and, for an ATA
-- disk behind a SCSI layer, from its IDENTIFY data. The field readers are of
-- libscsicmd/include/ata_parse.h. The kernel and `isspace` are parameters.
use diskscan.Base.{
  ℕ, zero, suc, ◌+◌, Bool, true, false, ◌&&◌, not, Option, some, none, List, ◌++◌, length,
  get_elem?, set, take, drop, replicate, leb, ◌==◌, if◌then◌else◌, ◌>>=◌,
}
use diskscan.Device.Types.{SgHeader, SgReply, from_dev}
use diskscan.Device.{sg_ioctl, short_timeout, new_cdb, command}
use diskscan.Cdb.{cdb_inquiry}
use diskscan.Ata.Passthrough.{cdb_ata_identify}
use diskscan.Inquiry.{parse_inquiry, ata_get_string, strtrim}

-- The arrays of `disk_t` that are filled.
pub record Identity : Type 0 where
  pub vendor : List ℕ
  pub model : List ℕ
  pub fw_rev : List ℕ
  pub serial : List ℕ
  pub is_ata : Bool
  pub ata_buf : List ℕ
  pub ata_buf_len : ℕ

unfoldable pub ata_get_ata_identify_fw_rev : List ℕ → List ℕ → Option (List ℕ)
ata_get_ata_identify_fw_rev buf out = ata_get_string buf 23 26 out

unfoldable pub ata_get_ata_identify_serial_number : List ℕ → List ℕ → Option (List ℕ)
ata_get_ata_identify_serial_number buf out = ata_get_string buf 10 19 out

unfoldable pub ata_get_ata_identify_model : List ℕ → List ℕ → Option (List ℕ)
ata_get_ata_identify_model buf out = ata_get_string buf 27 46 out

-- `strncmp(s, "ATA", 3) == 0`: a later character is looked at if those before it agree.
unfoldable pub begins_ata : List ℕ → Option Bool
begins_ata s = do
  c0 ← get_elem? s 0
  if not (c0 == 65) then some false else (do
    c1 ← get_elem? s 1
    if not (c1 == 84) then some false else get_elem? s 2 >>= λ c2. some (c2 == 65))

-- The offset of the first zero from i on, for the characters of the array.
unfoldable pub strlen_from : ℕ → List ℕ → ℕ → Option ℕ
strlen_from zero s i = none
strlen_from (suc fuel) s i =
    let rest = strlen_from fuel s (i + 1) in get_elem? s i >>= λ c. if c == 0 then some i else rest

-- `strcpy` from offset `src` of one array to offset `to` of another.
unfoldable pub strcpy_from : ℕ → List ℕ → ℕ → List ℕ → ℕ → Option (List ℕ)
strcpy_from zero s src d to = none
strcpy_from (suc fuel) s src d to = get_elem? s src >>= λ c. get_elem? d to >>= λ old.
    elim (c == 0) [
      | true ↦ some (set d to 0)
      | false ↦ strcpy_from fuel s (src + 1) (set d to c) (to + 1)
    ]

-- `memcpy` of n bytes to the start of an array.
unfoldable pub memcpy : ℕ → List ℕ → List ℕ → Option (List ℕ)
memcpy n src d =
    if leb n (length src) && leb n (length d) then some (take n src ++ drop n d) else none

abbrev inquiry_header : SgHeader
inquiry_header = record {
  direction = from_dev;
  cdb = command (cdb_inquiry new_cdb false 0 96);
  dxfer = replicate 512 0;
  mx_sb_len = 128;
  timeout = short_timeout;
}

abbrev identify_header : SgHeader
identify_header = record inquiry_header { cdb = command (cdb_ata_identify new_cdb) }

module _ {K : Type 0} (ioctl : K → SgHeader → SgReply × K) (isspace : ℕ → Bool) where
  -- The names from the IDENTIFY data; the model's first word is the vendor.
  unfoldable pub ata_identity : List ℕ → ℕ → Identity → Option Identity
  ata_identity buf buf_read d = do
    text ← ata_get_ata_identify_model buf d.vendor
    vendor ← strtrim isspace text
    len ← strlen_from (length vendor) vendor 0
    rest ← strcpy_from (length vendor) vendor (len + 1) d.model 0
    model ← strtrim isspace rest
    fw ← ata_get_ata_identify_fw_rev buf d.fw_rev
    fw_rev ← strtrim isspace fw
    number ← ata_get_ata_identify_serial_number buf d.serial
    serial ← strtrim isspace number
    ata_buf ← memcpy buf_read buf d.ata_buf
    some (record {
      vendor = vendor;
      model = model;
      fw_rev = fw_rev;
      serial = serial;
      is_ata = true;
      ata_buf = ata_buf;
      ata_buf_len = buf_read;
    })

  unfoldable pub identify_ata : K → Identity → Option (Bool × Identity × K)
  identify_ata k d = do
    (s, k') ← sg_ioctl ioctl k identify_header 512
    if not s.ok
        then some (false, d, k')
        else (do named ← ata_identity s.buf s.buf_read d; some (true, named, k'))

  -- The result false is the return value -1.
  unfoldable pub disk_dev_identify : K → Identity → Option (Bool × Identity × K)
  disk_dev_identify k d = do
    (s, k') ← sg_ioctl ioctl k inquiry_header 512
    let d0 : Identity = record d { is_ata = false; ata_buf_len = 0 }
    if not s.ok then some (false, d0, k') else (do
      (parsed, names) ← parse_inquiry s.buf s.buf_read (record {
        device_type = 0;
        vendor = d.vendor;
        model = d.model;
        revision = d.fw_rev;
        serial = d.serial;
      })
      let d1 : Identity = record d0 {
        vendor = names.vendor;
        model = names.model;
        fw_rev = names.revision;
        serial = names.serial;
      }
      if not parsed then some (false, d1, k') else (do
        vendor ← strtrim isspace d1.vendor
        model ← strtrim isspace d1.model
        fw_rev ← strtrim isspace d1.fw_rev
        serial ← strtrim isspace d1.serial
        let d2 : Identity = record d1 {
          vendor = vendor;
          model = model;
          fw_rev = fw_rev;
          serial = serial;
        }
        ata ← begins_ata vendor
        if not ata then some (true, d2, k') else identify_ata k' (record d2 { is_ata = true })))
