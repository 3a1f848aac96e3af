-- ===== src/Capacity.antt =====
-- The parsers of READ CAPACITY data, libscsicmd/src/parse_read_cap.c. The result of a parser is
-- `none` for a read past the end of the buffer and `some none` where it returns false.
use diskscan.Base.{
  ℕ, ◌+◌, ◌*◌, ◌/◌, ◌%◌, ◌^◌, ◌≤◌, Bool, Option, some, none, List, length, get_elem?, ltb,
  if◌then◌else◌, bit, ◌>>=◌, arith, IsDefined, defined, IsDefined-bind, IsDefined-if_of,
  IsDefined-get_elem?,
}
use diskscan.Wire.{get_uint32, get_uint64}
use diskscan.Wire.Reads.{IsDefined-get_uint32, IsDefined-get_uint64}

pub record Capacity : Type 0 where
  pub max_lba : ℕ
  pub block_size : ℕ

-- What the longer form adds.
pub record Provisioning : Type 0 where
  pub prot_enable : Bool
  pub p_type : ℕ
  pub p_i_exponent : ℕ
  pub logical_blocks_per_physical_block_exponent : ℕ
  pub thin_provisioning_enabled : Bool
  pub thin_provisioning_zero : Bool
  pub lowest_aligned_lba : ℕ

-- The callers pass both addresses.
unfoldable pub parse_read_capacity_10 : List ℕ → ℕ → Option (Option Capacity)
parse_read_capacity_10 buf buf_len = if ltb buf_len 8 then some none else (do
  max_lba ← get_uint32 buf 0
  block_size ← get_uint32 buf 4
  some (some (record { max_lba = max_lba; block_size = block_size })))

unfoldable pub parse_read_capacity_16 : List ℕ → ℕ → Option (Option (Capacity × Provisioning))
parse_read_capacity_16 buf buf_len = if ltb buf_len 16 then some none else (do
  max_lba ← get_uint64 buf 0
  block_size ← get_uint32 buf 8
  b12 ← get_elem? buf 12
  b13 ← get_elem? buf 13
  b14 ← get_elem? buf 14
  b15 ← get_elem? buf 15
  some (
      some (
        record { max_lba = max_lba; block_size = block_size },
        record {
          prot_enable = bit b12 0;
          p_type = b12 % 16 / 2;
          p_i_exponent = b13 / 16;
          logical_blocks_per_physical_block_exponent = b13 % 16;
          thin_provisioning_enabled = bit b14 7;
          thin_provisioning_zero = bit b14 6;
          lowest_aligned_lba = b14 % 64 * 2 ^ 8 + b15;
        },
      )))

-- Neither parser reads past `buf_len`.
pub parse_read_capacity-IsDefined :
    (buf : List ℕ) (buf_len : ℕ)
    → buf_len ≤ length buf
    → IsDefined (parse_read_capacity_10 buf buf_len)
      × IsDefined (parse_read_capacity_16 buf buf_len)
unfolding parse_read_capacity_10 parse_read_capacity_16
parse_read_capacity-IsDefined buf buf_len h = (
  IsDefined-if_of (ltb buf_len 8) (λ _. defined _)
      (λ e.
        let k : 8 ≤ buf_len = ground arith in
        IsDefined-bind (IsDefined-get_uint32 buf 0 (omega arith))
          λ m. IsDefined-bind (IsDefined-get_uint32 buf 4 (omega arith)) λ b. defined _),
  IsDefined-if_of (ltb buf_len 16) (λ _. defined _)
      (λ e.
        let k : 16 ≤ buf_len = ground arith in
        IsDefined-bind (IsDefined-get_uint64 buf 0 (omega arith)) λ m.
          IsDefined-bind (IsDefined-get_uint32 buf 8 (omega arith)) λ b.
            IsDefined-bind (IsDefined-get_elem? buf 12 (omega arith)) λ b12.
              IsDefined-bind (IsDefined-get_elem? buf 13 (omega arith)) λ b13.
                IsDefined-bind (IsDefined-get_elem? buf 14 (omega arith)) λ b14.
                  IsDefined-bind (IsDefined-get_elem? buf 15 (omega arith)) λ b15. defined _),
)
