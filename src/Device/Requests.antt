-- ===== src/Device/Requests.antt =====
-- What arch/arch-linux.c asks of the drive in `disk_dev_read` and `disk_dev_write`.
use native.Mathlib.Nat.{mul-div_cancel, mod-eq_of_lt, add-mul-div_right}
use diskscan.Base.{
  ℕ, zero, suc, ◌+◌, ◌*◌, ◌/◌, ◌%◌, ◌^◌, ◌≤◌, ◌<◌, ◌≡◌, refl, ap, ◌∙◌, List, [], ◌∷◌, length, take,
  replicate, some, arith,
}
use diskscan.Cdb.{zero_bytes, cdb_read_10, cdb_write_10}
use diskscan.Cdb.Request.{Request, read, write, decode}
use diskscan.Device.Types.{DiskDev}
use diskscan.Device.{read_header, write_header}

some_request : (f : ℕ → ℕ → Request) {a b c d : ℕ} → a ≡ c → b ≡ d → some (f a b) ≡ some (f c d)
some_request f p q = λ i. some (f (p i) (q i))

module _ (dev : DiskDev) (offset len : ℕ) (buf : List ℕ) where
  pub decode-read_header :
      decode (read_header dev offset len buf).cdb
      ≡ some (read (offset / dev.sector_size % 2 ^ 32) (len / dev.sector_size % 2 ^ 16))
  unfolding decode read_header cdb_read_10
  decode-read_header = some_request read (omega arith) (omega arith)

  pub decode-write_header :
      decode (write_header dev offset len buf).cdb
      ≡ some (write (offset / dev.sector_size % 2 ^ 32) (len / dev.sector_size % 2 ^ 16))
  unfolding decode write_header cdb_write_10
  decode-write_header = some_request write (omega arith) (omega arith)

take-zero_bytes : (n : ℕ) (xs : List ℕ) → n ≤ length xs → take n (zero_bytes xs 0 n) ≡ replicate n 0
unfolding zero_bytes
take-zero_bytes zero xs h = refl
take-zero_bytes (suc n) [] h = absurd (omega arith)
take-zero_bytes (suc n) (x ∷ xs) h = ap (λ r. 0 ∷ r) (take-zero_bytes n xs (omega arith))

-- A read and a write of whole sectors whose addresses fit the command's 32 bits, and whose count
-- fits its 16 bits, ask the drive for the sectors meant.
pub requests_exact :
    (dev : DiskDev) (sector count : ℕ) (buf : List ℕ)
    → 0 < dev.sector_size
    → sector < 2 ^ 32
    → count < 2 ^ 16
    → let offset = sector * dev.sector_size in
      let len = count * dev.sector_size in
      (decode (read_header dev offset len buf).cdb ≡ some (read sector count))
      × (decode (write_header dev offset len buf).cdb ≡ some (write sector count))
requests_exact dev sector count buf h hs hc = (
  decode-read_header dev (sector * dev.sector_size) (count * dev.sector_size) buf
      ∙ some_request read (low 32 hs) (low 16 hc),
  decode-write_header dev (sector * dev.sector_size) (count * dev.sector_size) buf
      ∙ some_request write (low 32 hs) (low 16 hc),
)
  where
    low : {n : ℕ} (k : ℕ) → n < 2 ^ k → n * dev.sector_size / dev.sector_size % 2 ^ k ≡ n
    low {n} k p = rw (mul-div_cancel n h) (mod-eq_of_lt p)

-- A sector beyond 2 ^ 32 is read from, and written to, another place: the command is that of the
-- sector 2 ^ 32 below.
pub requests_alias :
    (dev : DiskDev) (offset len : ℕ) (buf : List ℕ)
    → 0 < dev.sector_size
    → let beyond = offset + 2 ^ 32 * dev.sector_size in
      (read_header dev beyond len buf ≡ read_header dev offset len buf)
      × (write_header dev beyond len buf ≡ write_header dev offset len buf)
unfolding read_header write_header cdb_read_10 cdb_write_10
requests_alias dev offset len buf h = (rw e, rw e)
  where
    e :
        (offset + 2 ^ 32 * dev.sector_size) / dev.sector_size % 2 ^ 32
        ≡ offset / dev.sector_size % 2 ^ 32
    e = rw (add-mul-div_right offset (2 ^ 32) h) (omega arith)

-- Whatever the caller's buffer holds, a write sends zeros: the buffer is cleared before the request
-- is made.
pub write_header-zeros :
    (dev : DiskDev) (offset len : ℕ) (buf : List ℕ)
    → len ≤ length buf
    → (write_header dev offset len buf).dxfer ≡ replicate len 0
unfolding write_header
write_header-zeros dev offset len buf h = take-zero_bytes len buf h
