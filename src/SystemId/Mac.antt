-- ===== src/SystemId/Mac.antt =====
-- `mac_read` of arch/arch-linux.c. What the kernel says of the network interfaces is a parameter.
use diskscan.Base.{
  ℕ, Bool, Option, some, none, List, [], ◌∷◌, length, get_elem?, set, leb, if◌then◌else◌, ◌>>=◌,
}
use diskscan.Cdb.{zero_bytes}
use diskscan.Disk.Identify.{memcpy}

-- An interface: whether it is the loopback, `none` where SIOCGIFFLAGS fails, and its address, `none`
-- where SIOCGIFHWADDR fails.
pub record Interface : Type 0 where
  pub is_loopback : Option Bool
  pub hwaddr : Option (List ℕ)

-- The loop: the address of the first interface that is no loopback and has one.
unfoldable pub first_address : List Interface → Option (List ℕ)
first_address [] = none
first_address (i ∷ interfaces) =
    let rest = first_address interfaces in
    elim i.is_loopback [
      | none ↦ rest
      | some loopback ↦ if loopback then rest else elim i.hwaddr [ none ↦ rest | some a ↦ some a ]
    ]

-- The interfaces are `none` where there is no socket, or SIOCGIFCONF fails: then only the first byte
-- is written.
unfoldable pub mac_read : Option (List Interface) → List ℕ → ℕ → Option (List ℕ)
mac_read interfaces buf len = get_elem? buf 0 >>= λ old. elim interfaces [
  | none ↦ some (set buf 0 0)
  | some it ↦ elim (first_address it) [
    | none ↦ if leb len (length buf) then some (zero_bytes (set buf 0 0) 0 len) else none
    | some a ↦ memcpy (if leb 6 len then 6 else len) a (set buf 0 0)
  ]
]
