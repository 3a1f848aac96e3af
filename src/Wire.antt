-- ===== src/Wire.antt =====
-- Big-endian fields of byte buffers: libscsicmd/include/scsicmd_utils.h (the `get_` functions and
-- `safe_len`) and the `set_` functions of libscsicmd/src/cdb.c. A read past the end of a buffer is
-- `none`. Bytes are below 256, so the source's `|` of shifted bytes is a sum.
pub mod Roundtrip
pub mod Reads
use diskscan.Base.{
  ℕ, ◌+◌, ◌-◌, ◌*◌, ◌/◌, ◌%◌, ◌^◌, Option, some, List, get_elem?, set, ◌>>=◌, ltb, u32,
  if◌then◌else◌,
}

unfoldable pub get_uint16 : List ℕ → ℕ → Option ℕ
get_uint16 buf start = do
  b0 ← get_elem? buf start
  b1 ← get_elem? buf (start + 1)
  some (b0 * 2 ^ 8 + b1)

unfoldable pub get_uint24 : List ℕ → ℕ → Option ℕ
get_uint24 buf start = do
  b0 ← get_elem? buf start
  b1 ← get_elem? buf (start + 1)
  b2 ← get_elem? buf (start + 2)
  some (b0 * 2 ^ 16 + b1 * 2 ^ 8 + b2)

unfoldable pub get_uint32 : List ℕ → ℕ → Option ℕ
get_uint32 buf start = do
  b0 ← get_elem? buf start
  b1 ← get_elem? buf (start + 1)
  b2 ← get_elem? buf (start + 2)
  b3 ← get_elem? buf (start + 3)
  some (b0 * 2 ^ 24 + b1 * 2 ^ 16 + b2 * 2 ^ 8 + b3)

unfoldable pub get_uint64 : List ℕ → ℕ → Option ℕ
get_uint64 buf start = do
  b0 ← get_elem? buf start
  b1 ← get_elem? buf (start + 1)
  b2 ← get_elem? buf (start + 2)
  b3 ← get_elem? buf (start + 3)
  b4 ← get_elem? buf (start + 4)
  b5 ← get_elem? buf (start + 5)
  b6 ← get_elem? buf (start + 6)
  b7 ← get_elem? buf (start + 7)
  some (
      b0 * 2 ^ 56
      + b1 * 2 ^ 48
      + b2 * 2 ^ 40
      + b3 * 2 ^ 32
      + b4 * 2 ^ 24
      + b5 * 2 ^ 16
      + b6 * 2 ^ 8
      + b7)

-- The sub-buffer is given by its offset from `start`, which is not negative here.
unfoldable pub safe_len : ℕ → ℕ → ℕ → ℕ
safe_len len start_offset subbuf_len =
    if ltb len start_offset
    then 0
    else if ltb len (u32 (subbuf_len + start_offset))
    then len - start_offset
    else subbuf_len

-- A write past the end of the buffer is left out; the callers' buffers have 32 bytes.
unfoldable pub set_uint16 : List ℕ → ℕ → ℕ → List ℕ
set_uint16 cdb start val =
    let c = set cdb start (val / 2 ^ 8 % 2 ^ 8) in set c (start + 1) (val % 2 ^ 8)

unfoldable pub set_uint32 : List ℕ → ℕ → ℕ → List ℕ
set_uint32 cdb start val =
    let c0 = set cdb start (val / 2 ^ 24 % 2 ^ 8) in
    let c1 = set c0 (start + 1) (val / 2 ^ 16 % 2 ^ 8) in
    let c2 = set c1 (start + 2) (val / 2 ^ 8 % 2 ^ 8) in set c2 (start + 3) (val % 2 ^ 8)

unfoldable pub set_uint64 : List ℕ → ℕ → ℕ → List ℕ
set_uint64 cdb start val =
    let c0 = set cdb start (val / 2 ^ 56 % 2 ^ 8) in
    let c1 = set c0 (start + 1) (val / 2 ^ 48 % 2 ^ 8) in
    let c2 = set c1 (start + 2) (val / 2 ^ 40 % 2 ^ 8) in
    let c3 = set c2 (start + 3) (val / 2 ^ 32 % 2 ^ 8) in
    let c4 = set c3 (start + 4) (val / 2 ^ 24 % 2 ^ 8) in
    let c5 = set c4 (start + 5) (val / 2 ^ 16 % 2 ^ 8) in
    let c6 = set c5 (start + 6) (val / 2 ^ 8 % 2 ^ 8) in set c6 (start + 7) (val % 2 ^ 8)
