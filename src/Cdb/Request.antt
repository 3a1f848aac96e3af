-- ===== src/Cdb/Request.antt =====
-- What a device reads in a command block, written from the SCSI command tables and independent of
-- the builders: the operation, the block address and the number of blocks.
use diskscan.Base.{ℕ, Option, some, none, List, get_elem?, ◌>>=◌, ◌==◌, if◌then◌else◌}
use diskscan.Wire.{get_uint16, get_uint32, get_uint64}

pub data Request : Type 0 where
  read write : ℕ → ℕ → Request
  capacity_10 : Request
  capacity_16 : ℕ → Request

unfoldable pub short_form : (ℕ → ℕ → Request) → List ℕ → Option Request
unfolding get_uint16 get_uint32
short_form request cdb = do lba ← get_uint32 cdb 2; n ← get_uint16 cdb 7; some (request lba n)

unfoldable pub long_form : (ℕ → ℕ → Request) → List ℕ → Option Request
unfolding get_uint32 get_uint64
long_form request cdb = do lba ← get_uint64 cdb 2; n ← get_uint32 cdb 10; some (request lba n)

unfoldable pub decode_operation : ℕ → List ℕ → Option Request
unfolding short_form long_form
decode_operation op cdb =
    if op == 0x28
    then short_form Request.read cdb
    else if op == 0x2a
    then short_form Request.write cdb
    else if op == 0x88
    then long_form Request.read cdb
    else if op == 0x8a
    then long_form Request.write cdb
    else if op == 0x25
    then some Request.capacity_10
    else if op == 0x9e
    then (get_uint32 cdb 10 >>= λ n. some (Request.capacity_16 n))
    else none

unfoldable pub decode : List ℕ → Option Request
unfolding decode_operation
decode cdb = get_elem? cdb 0 >>= λ op. decode_operation op cdb
