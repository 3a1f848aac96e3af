-- ===== src/Wire/Reads.antt =====
-- The getters of libscsicmd/include/scsicmd_utils.h read their own bytes and no more.
use diskscan.Base.{
  ℕ, ◌+◌, ◌≤◌, List, length, arith, IsDefined, defined, IsDefined-bind, IsDefined-get_elem?,
}
use diskscan.Wire.{get_uint16, get_uint24, get_uint32, get_uint64}

module _ (buf : List ℕ) (start : ℕ) where
  pub IsDefined-get_uint16 : start + 2 ≤ length buf → IsDefined (get_uint16 buf start)
  unfolding get_uint16
  IsDefined-get_uint16 h =
      IsDefined-bind (IsDefined-get_elem? buf start (omega arith))
        λ b0. IsDefined-bind (IsDefined-get_elem? buf (start + 1) (omega arith)) λ b1. defined _

  pub IsDefined-get_uint24 : start + 3 ≤ length buf → IsDefined (get_uint24 buf start)
  unfolding get_uint24
  IsDefined-get_uint24 h = IsDefined-bind (IsDefined-get_elem? buf start (omega arith)) λ b0.
      IsDefined-bind (IsDefined-get_elem? buf (start + 1) (omega arith))
        λ b1. IsDefined-bind (IsDefined-get_elem? buf (start + 2) (omega arith)) λ b2. defined _

  pub IsDefined-get_uint32 : start + 4 ≤ length buf → IsDefined (get_uint32 buf start)
  unfolding get_uint32
  IsDefined-get_uint32 h = IsDefined-bind (IsDefined-get_elem? buf start (omega arith)) λ b0.
      IsDefined-bind (IsDefined-get_elem? buf (start + 1) (omega arith)) λ b1.
        IsDefined-bind (IsDefined-get_elem? buf (start + 2) (omega arith))
          λ b2. IsDefined-bind (IsDefined-get_elem? buf (start + 3) (omega arith)) λ b3. defined _

  pub IsDefined-get_uint64 : start + 8 ≤ length buf → IsDefined (get_uint64 buf start)
  unfolding get_uint64
  IsDefined-get_uint64 h = IsDefined-bind (IsDefined-get_elem? buf start (omega arith)) λ b0.
      IsDefined-bind (IsDefined-get_elem? buf (start + 1) (omega arith)) λ b1.
        IsDefined-bind (IsDefined-get_elem? buf (start + 2) (omega arith)) λ b2.
          IsDefined-bind (IsDefined-get_elem? buf (start + 3) (omega arith)) λ b3.
            IsDefined-bind (IsDefined-get_elem? buf (start + 4) (omega arith)) λ b4.
              IsDefined-bind (IsDefined-get_elem? buf (start + 5) (omega arith)) λ b5.
                IsDefined-bind (IsDefined-get_elem? buf (start + 6) (omega arith)) λ b6.
                  IsDefined-bind (IsDefined-get_elem? buf (start + 7) (omega arith)) λ b7. defined _
