-- ===== src/Device.antt =====
-- The Linux device layer, arch/arch-linux.c. The kernel's answer to `ioctl(SG_IO)` is a parameter,
-- a function from its own state and the request. `none` is a read past the end of a buffer; an inner
-- `none` is the return value -1. A division by a sector size of 0, which `disk_open` refuses, is 0.
pub mod Types
pub mod Errors
pub mod Requests
pub mod Posix
use diskscan.Base.{
  length, drop, ◌++◌, ℕ, ◌+◌, ◌-◌, ◌*◌, ◌/◌, ◌^◌, Bool, true, false, ◌&&◌, ◌||◌, not, Option, some,
  none, List, [], take, replicate, ltb, ◌==◌, if◌then◌else◌, u16, u32, u64, ◌>>=◌,
}
use diskscan.Sense.Info.{
  SenseInfo, zero_info, no_sense, recovered_error, not_ready, medium_error, unit_attention,
  aborted_command,
}
use diskscan.Sense.{scsi_parse_sense}
use diskscan.Cdb.{zero_bytes, cdb_read_10, cdb_write_10, cdb_read_capacity_10, cdb_read_capacity_16}
use diskscan.Capacity.{Capacity, parse_read_capacity_10, parse_read_capacity_16}
use Types.{
  ResultData, data_full, data_partial, data_none, ResultError, error_none, error_corrected,
  error_uncorrected, error_need_retry, error_fatal, error_unknown, IoResult, DiskDev, Direction,
  to_dev, from_dev, SgHeader, SgReply,
}

unfoldable pub sense_to_error : SenseInfo → ResultError
sense_to_error info =
    let key = info.sense_key in
    if key == no_sense
    then error_none
    else if key == recovered_error
    then error_corrected
    else if key == medium_error
    then error_uncorrected
    else if key == unit_attention || (key == not_ready || key == aborted_command)
    then error_need_retry
    else if ltb key 16
    then error_fatal
    else error_unknown

-- `LONG_TIMEOUT` and `SHORT_TIMEOUT`
abbrev pub long_timeout : ℕ
long_timeout = 60 * 1000

abbrev pub short_timeout : ℕ
short_timeout = 5 * 1000

-- `memset(io_res, 0, sizeof(*io_res))`
abbrev pub zero_result : IoResult
zero_result = record { result = data_full; error = error_none; info = zero_info; sense = [] }

-- What a call of `sg_ioctl` leaves: its return value (`none` for -1), the buffer, the two lengths
-- and `*io_res`.
pub record SgResult : Type 0 where
  pub ok : Bool
  pub buf : List ℕ
  pub buf_read : ℕ
  pub sense_read : ℕ
  pub io_res : IoResult

unfoldable pub transferred : ℕ → ℕ → ResultData
transferred buf_read buf_len =
    if buf_read == buf_len then data_full else if buf_read == 0 then data_none else data_partial

-- The part of `sg_ioctl` after the call, where the kernel took the request.
unfoldable pub sg_result : ℕ → SgReply → Option SgResult
sg_result buf_len r =
    let buf_read = u32 (buf_len + 2 ^ 32 - r.resid) in
    let res = transferred buf_read buf_len in
    if not (r.sb_len_wr == 0)
    then (scsi_parse_sense r.sbp r.sb_len_wr >>= λ (parsed, info). some (record {
      ok = true;
      buf = r.dxfer;
      buf_read = buf_read;
      sense_read = r.sb_len_wr;
      io_res = record {
        result = res;
        error = if parsed then sense_to_error info else error_unknown;
        info = info;
        sense = take r.sb_len_wr r.sbp;
      };
    }))
    else some (record {
      ok = true;
      buf = r.dxfer;
      buf_read = buf_read;
      sense_read = 0;
      io_res = record zero_result {
        result = res;
        error = if not (r.status == 0) && buf_read == 0 then error_unknown else error_none;
      };
    })

unfoldable pub sg_failed : List ℕ → SgResult
sg_failed buf = record {
  ok = false;
  buf = buf;
  buf_read = 0;
  sense_read = 0;
  io_res = record zero_result { result = data_none; error = error_fatal };
}

-- `unsigned char cdb[32]`; its first bytes are all written before it is used.
abbrev pub new_cdb : List ℕ
new_cdb = replicate 32 0

abbrev pub command : List ℕ × ℕ → List ℕ
command (cdb, cdb_len) = take cdb_len cdb

-- The request that each function sends; `buf` has been set to zero up to the length.
unfoldable pub read_header : DiskDev → ℕ → ℕ → List ℕ → SgHeader
read_header dev offset_bytes len_bytes buf = record {
  direction = from_dev;
  cdb =
      command
        (cdb_read_10 new_cdb false (offset_bytes / dev.sector_size) (len_bytes / dev.sector_size));
  dxfer = take len_bytes (zero_bytes buf 0 len_bytes);
  mx_sb_len = 128;
  timeout = long_timeout;
}

unfoldable pub write_header : DiskDev → ℕ → ℕ → List ℕ → SgHeader
write_header dev offset_bytes len_bytes buf = record {
  direction = to_dev;
  cdb =
      command
        (cdb_write_10 new_cdb false (offset_bytes / dev.sector_size) (len_bytes / dev.sector_size));
  dxfer = take len_bytes (zero_bytes buf 0 len_bytes);
  mx_sb_len = 128;
  timeout = long_timeout;
}

unfoldable pub capacity_10_header : SgHeader
capacity_10_header = record {
  direction = from_dev;
  cdb = command (cdb_read_capacity_10 new_cdb);
  dxfer = replicate 512 0;
  mx_sb_len = 128;
  timeout = short_timeout;
}

unfoldable pub capacity_16_header : List ℕ → SgHeader
capacity_16_header buf = record {
  direction = from_dev;
  cdb = command (cdb_read_capacity_16 new_cdb 512);
  dxfer = buf;
  mx_sb_len = 128;
  timeout = short_timeout;
}

-- The common end of `disk_dev_read` and `disk_dev_write`.
unfoldable pub io_return : ℕ → SgResult → Option ℕ
io_return len_bytes r =
    if not r.ok
    then none
    else if ltb r.buf_read len_bytes && ltb 0 r.sense_read
    then none
    else some r.buf_read

pub record Transfer : Type 0 where
  pub ret : Option ℕ
  pub buf : List ℕ
  pub io_res : IoResult

-- The caller's buffer with what the kernel has left in its first `len_bytes` bytes.
unfoldable pub refill : ℕ → List ℕ → List ℕ → List ℕ
refill len_bytes dxfer buf = let filled = take len_bytes dxfer in filled ++ drop (length filled) buf

-- A buffer that is too short for the bytes to be cleared is overrun.
module _ {K : Type 0} (ioctl : K → SgHeader → SgReply × K) where
  unfoldable pub sg_ioctl : K → SgHeader → ℕ → Option (SgResult × K)
  sg_ioctl k header buf_len =
      let (r, k') = ioctl k header in
      if r.failed then some (sg_failed r.dxfer, k') else (sg_result buf_len r >>= λ s. some (s, k'))

  unfoldable pub disk_dev_read : K → DiskDev → ℕ → ℕ → List ℕ → Option (Transfer × K)
  disk_dev_read k dev offset_bytes len_bytes buf = if ltb (length buf) len_bytes then none else (do
    (s, k') ← sg_ioctl k (read_header dev offset_bytes len_bytes buf) len_bytes
    some (
      record { ret = io_return len_bytes s; buf = refill len_bytes s.buf buf; io_res = s.io_res },
      k',
    ))

  unfoldable pub disk_dev_write : K → DiskDev → ℕ → ℕ → List ℕ → Option (Transfer × K)
  disk_dev_write k dev offset_bytes len_bytes buf = if ltb (length buf) len_bytes then none else (do
    (s, k') ← sg_ioctl k (write_header dev offset_bytes len_bytes buf) len_bytes
    some (
      record { ret = io_return len_bytes s; buf = refill len_bytes s.buf buf; io_res = s.io_res },
      k',
    ))

  -- READ CAPACITY (16), asked where the short form cannot tell; the result is the size in bytes and
  -- the sector size, and `none` is the return value -1.
  unfoldable pub read_cap_16 : K → List ℕ → Option (Option (ℕ × ℕ) × K)
  read_cap_16 k buf = do
    (s, k') ← sg_ioctl k (capacity_16_header buf) 512
    if not s.ok || ltb 0 s.sense_read then some (none, k') else (do
      parsed ← parse_read_capacity_16 s.buf s.buf_read
      some (
        elim parsed [ none ↦ none | some (c, _) ↦ some (u64 (c.max_lba * 512), c.block_size) ],
        k',
      ))

  unfoldable pub disk_dev_read_cap : K → Option (Option (ℕ × ℕ) × K)
  disk_dev_read_cap k = do
    (s, k') ← sg_ioctl k capacity_10_header 512
    if not s.ok then some (none, k') else (do
      parsed ← parse_read_capacity_10 s.buf s.buf_read
      elim parsed [
        | none ↦ some (none, k')
        | some c ↦
            if ltb 0 s.sense_read
            then some (none, k')
            else if ltb c.max_lba 0xffff_ffff
            then some (some (c.max_lba * 512, c.block_size), k')
            else read_cap_16 k' s.buf
      ])
