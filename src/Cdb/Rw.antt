-- ===== src/Cdb/Rw.antt =====
-- What a device is asked for by the blocks of cdb_read_10, cdb_write_10, cdb_read_16, cdb_write_16
-- and the two cdb_read_capacity functions of libscsicmd/src/cdb.c.
use diskscan.Base.{ℕ, zero, suc, ◌%◌, ◌^◌, ◌≤◌, ◌≡◌, ap, Bool, List, [], ◌∷◌, length, some, arith}
use diskscan.Cdb.{cdb_read_10, cdb_write_10, cdb_read_16, cdb_write_16, cdb_read_capacity_16}
use diskscan.Cdb.Request.{Request, read, write, capacity_16, decode}

-- A buffer with room for n bytes, taken apart.
pub data Room : ℕ → List ℕ → Type 0 where
  done : {xs : List ℕ} → Room zero xs
  byte : {n : ℕ} {xs : List ℕ} (b : ℕ) → Room n xs → Room (suc n) (b ∷ xs)

pub room : (n : ℕ) (xs : List ℕ) → n ≤ length xs → Room n xs
room zero xs h = done
room (suc n) [] h = absurd (omega arith)
room (suc n) (x ∷ xs) h = byte x (room n xs (omega arith))

some_request : (f : ℕ → ℕ → Request) {a b c d : ℕ} → a ≡ c → b ≡ d → some (f a b) ≡ some (f c d)
some_request f p q = λ i. some (f (p i) (q i))

cdb_read_10_in :
    {cdb : List ℕ} (fua : Bool) (lba n : ℕ)
    → Room 10 cdb
    → decode (cdb_read_10 cdb fua lba n).0 ≡ some (read (lba % 2 ^ 32) (n % 2 ^ 16))
unfolding decode cdb_read_10
cdb_read_10_in fua lba n
      (byte _
        (byte _ (byte _ (byte _ (byte _ (byte _ (byte _ (byte _ (byte _ (byte _ done)))))))))) =
    some_request read (omega arith) (omega arith)

cdb_write_10_in :
    {cdb : List ℕ} (fua : Bool) (lba n : ℕ)
    → Room 10 cdb
    → decode (cdb_write_10 cdb fua lba n).0 ≡ some (write (lba % 2 ^ 32) (n % 2 ^ 16))
unfolding decode cdb_write_10
cdb_write_10_in fua lba n
      (byte _
        (byte _ (byte _ (byte _ (byte _ (byte _ (byte _ (byte _ (byte _ (byte _ done)))))))))) =
    some_request write (omega arith) (omega arith)

cdb_read_16_in :
    {cdb : List ℕ} (fua nv dpo : Bool) (lba n : ℕ)
    → Room 16 cdb
    → decode (cdb_read_16 cdb fua nv dpo lba n).0 ≡ some (read (lba % 2 ^ 64) (n % 2 ^ 32))
unfolding decode cdb_read_16
cdb_read_16_in fua nv dpo lba n
      (byte _ (
        byte _ (
          byte _ (
            byte _ (
              byte _ (
                byte _ (
                  byte _ (
                    byte _ (
                      byte _ (
                        byte _
                          (byte _ (byte _ (byte _ (byte _ (byte _ (byte _ done)))))))))))))))) =
    some_request read (omega arith) (omega arith)

cdb_write_16_in :
    {cdb : List ℕ} (dpo fua nv : Bool) (lba n : ℕ)
    → Room 16 cdb
    → decode (cdb_write_16 cdb dpo fua nv lba n).0 ≡ some (write (lba % 2 ^ 64) (n % 2 ^ 32))
unfolding decode cdb_write_16
cdb_write_16_in dpo fua nv lba n
      (byte _ (
        byte _ (
          byte _ (
            byte _ (
              byte _ (
                byte _ (
                  byte _ (
                    byte _ (
                      byte _ (
                        byte _
                          (byte _ (byte _ (byte _ (byte _ (byte _ (byte _ done)))))))))))))))) =
    some_request write (omega arith) (omega arith)

cdb_read_capacity_16_in :
    {cdb : List ℕ} (n : ℕ)
    → Room 16 cdb
    → decode (cdb_read_capacity_16 cdb n).0 ≡ some (capacity_16 (n % 2 ^ 32))
unfolding decode cdb_read_capacity_16
cdb_read_capacity_16_in n
      (byte _ (
        byte _ (
          byte _ (
            byte _ (
              byte _ (
                byte _ (
                  byte _ (
                    byte _ (
                      byte _ (
                        byte _
                          (byte _ (byte _ (byte _ (byte _ (byte _ (byte _ done)))))))))))))))) =
    ap (λ k. some (capacity_16 k)) (omega arith)

-- In any buffer with room for the block, READ(10) asks for the block address modulo 2 ^ 32 and the
-- count modulo 2 ^ 16, and WRITE(10) likewise.
pub decode-rw_10 :
    (cdb : List ℕ) (fua : Bool) (lba n : ℕ)
    → 10 ≤ length cdb
    → (decode (cdb_read_10 cdb fua lba n).0 ≡ some (read (lba % 2 ^ 32) (n % 2 ^ 16)))
      × (decode (cdb_write_10 cdb fua lba n).0 ≡ some (write (lba % 2 ^ 32) (n % 2 ^ 16)))
decode-rw_10 cdb fua lba n h =
    (cdb_read_10_in fua lba n (room 10 cdb h), cdb_write_10_in fua lba n (room 10 cdb h))

-- In any buffer with room for the block, READ(16) and WRITE(16) ask for the block address modulo
-- 2 ^ 64 and the count modulo 2 ^ 32, whatever their cache bits.
pub decode-rw_16 :
    (cdb : List ℕ) (fua nv dpo : Bool) (lba n : ℕ)
    → 16 ≤ length cdb
    → (decode (cdb_read_16 cdb fua nv dpo lba n).0 ≡ some (read (lba % 2 ^ 64) (n % 2 ^ 32)))
      × (decode (cdb_write_16 cdb dpo fua nv lba n).0 ≡ some (write (lba % 2 ^ 64) (n % 2 ^ 32)))
decode-rw_16 cdb fua nv dpo lba n h = (
  cdb_read_16_in fua nv dpo lba n (room 16 cdb h),
  cdb_write_16_in dpo fua nv lba n (room 16 cdb h),
)

pub decode-read_capacity_16 :
    (cdb : List ℕ) (n : ℕ)
    → 16 ≤ length cdb
    → decode (cdb_read_capacity_16 cdb n).0 ≡ some (capacity_16 (n % 2 ^ 32))
decode-read_capacity_16 cdb n h = cdb_read_capacity_16_in n (room 16 cdb h)
