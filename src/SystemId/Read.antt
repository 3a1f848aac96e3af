-- ===== src/SystemId/Read.antt =====
-- `system_identifier_read` of lib/system_id.c as a whole.
use diskscan.Base.{
  ℕ, zero, suc, ◌≤◌, ◌≡◌, refl, ◌∙◌, Bool, true, false, Option, some, none, List, [], ◌∷◌, ◌++◌,
  length, take, drop, replicate, set, get_elem?, codes, arith, Gives-value, Ensures, nothing, value,
  ◌>>=◌, ◌&&◌, if◌then◌else◌, length-set, get_elem?-get_or, leb,
}
use mathlib.Core.List.{append-nil}
use diskscan.Cdb.{zero_bytes}
use diskscan.Disk.Identify.{memcpy}
use diskscan.SystemId.{SystemArrays, system_identifier_read}
use diskscan.SystemId.Mac.{Interface, mac_read, first_address}
use diskscan.SystemId.Texts.{Holds, hex_text, rstrip}
use diskscan.SystemId.Names.{
  shown, AllPrinted, digest_text, sha1_calc-Holds, dmidecode_read-Holds, os_read-Holds,
  zero_bytes-replicate,
}

-- The six bytes that are hashed as the address: without a list of interfaces only the first is set.
abbrev pub address : Option (List Interface) → List ℕ → List ℕ
address none stack = set stack 0 0
address (some it) stack = elim (first_address it) [ none ↦ replicate 6 0 | some a ↦ take 6 a ]

abbrev pub HasSix : Option (List ℕ) → Type 0
HasSix none = Unit {0}
HasSix (some a) = 6 ≤ length a

-- The addresses that the kernel gives have room for six bytes.
abbrev pub Addressed : List Interface → Type 0
Addressed [] = Unit {0}
Addressed (i ∷ it) = HasSix i.hwaddr × Addressed it

abbrev pub AllAddressed : Option (List Interface) → Type 0
AllAddressed none = Unit {0}
AllAddressed (some it) = Addressed it

first_address-Ensures :
    (it : List Interface) → Addressed it → Ensures (λ a. 6 ≤ length a) (first_address it)
unfolding first_address
first_address-Ensures [] h = nothing
first_address-Ensures (i ∷ it) h =
    pick i.is_loopback i.hwaddr (first_address it) h.0 (first_address-Ensures it h.1)
  where
    pick :
        (flag : Option Bool) (hw rest : Option (List ℕ))
        → HasSix hw
        → Ensures (λ a. 6 ≤ length a) rest
        → Ensures
            (λ a. 6 ≤ length a)
            (elim flag [
              | none ↦ rest
              | some loopback ↦ if loopback then rest else elim hw [ none ↦ rest | some a ↦ some a ]
            ])
    pick none hw rest h k = k
    pick (some true) hw rest h k = k
    pick (some false) none rest h k = k
    pick (some false) (some a) rest h k = value a h

drop_all : (n : ℕ) (xs : List ℕ) → length xs ≡ n → drop n xs ≡ []
drop_all zero [] e = refl
drop_all zero (x ∷ xs) e = absurd (omega arith)
drop_all (suc n) [] e = refl
drop_all (suc n) (x ∷ xs) e = drop_all n xs (omega arith)

mac_read_lem :
    (interfaces : Option (List Interface)) (stack : List ℕ)
    → length stack ≡ 6
    → AllAddressed interfaces
    → mac_read interfaces stack 6 ≡ some (address interfaces stack)
unfolding mac_read memcpy
mac_read_lem none stack size h = rw (get_elem?-get_or stack 0 0 (omega arith)) refl
mac_read_lem (some it) stack size h = found (first_address it) (first_address-Ensures it h)
  where
    kept : length (set stack 0 0) ≡ 6
    kept = length-set stack 0 0 ∙ size

    found :
        (o : Option (List ℕ))
        → Ensures (λ a. 6 ≤ length a) o
        → (get_elem? stack 0 >>= λ old. elim o [
          | none ↦ if leb 6 (length stack) then some (zero_bytes (set stack 0 0) 0 6) else none
          | some a ↦
              if leb 6 (length a) && leb 6 (length (set stack 0 0))
              then some (take 6 a ++ drop 6 (set stack 0 0))
              else none
        ])
          ≡ some (elim o [ none ↦ replicate 6 0 | some a ↦ take 6 a ])
    found none h =
        rw (get_elem?-get_or stack 0 0 (omega arith), size, zero_bytes-replicate 6 _ kept) refl
    found (some a) (value _ h) =
        let all : leb 6 (length a) ≡ true = ground arith in
        rw
          (
            get_elem?-get_or stack 0 0 (omega arith),
            kept,
            all,
            drop_all 6 (set stack 0 0) kept,
            append-nil (take 6 a),
          )
          refl

module _ (sha1 : List ℕ → List ℕ) (run : List ℕ → Option (List ℕ)) (isspace : ℕ → Bool) where
  -- The arrays of the system identifier, each with a zero behind its text.
  pub record Named (interfaces : Option (List Interface)) (stack : List ℕ) (id : SystemArrays)
      : Type 0 where
    pub os : Holds id.os (rstrip isspace (shown (run (codes "uname -o"))))
    pub system :
        Holds id.system (
          digest_text sha1 run
            (shown (run (codes "dmidecode -s " ++ codes "system-serial-number"))))
    pub chassis : Holds id.chassis (
        digest_text sha1 run (shown (run (codes "dmidecode -s " ++ codes "chassis-serial-number"))))
    pub baseboard : Holds id.baseboard (
        digest_text sha1 run
          (shown (run (codes "dmidecode -s " ++ codes "baseboard-serial-number"))))
    pub mac : Holds id.mac (hex_text (sha1 (address interfaces stack)))

  -- The outside: SHA-1 has twenty bytes, what the four commands print has no zero, and the addresses of
  -- the interfaces have six bytes.
  pub record Outside (interfaces : Option (List Interface)) : Type 0 where
    pub hash : (s : List ℕ) → length (sha1 s) ≡ 20
    pub os : AllPrinted (run (codes "uname -o"))
    pub system : AllPrinted (run (codes "dmidecode -s " ++ codes "system-serial-number"))
    pub chassis : AllPrinted (run (codes "dmidecode -s " ++ codes "chassis-serial-number"))
    pub baseboard : AllPrinted (run (codes "dmidecode -s " ++ codes "baseboard-serial-number"))
    pub addressed : AllAddressed interfaces

  -- The five arrays have 64 characters, and that of the operating system starts with a zero.
  pub record Arrays (id : SystemArrays) : Type 0 where
    pub os : length id.os ≡ 64
    pub os_empty : Holds id.os []
    pub system : length id.system ≡ 64
    pub chassis : length id.chassis ≡ 64
    pub baseboard : length id.baseboard ≡ 64
    pub mac : length id.mac ≡ 64

  -- The function succeeds without leaving an array. The name of the operating system is the first line
  -- that uname prints, 63 characters of it, without the spaces at its end; each serial number is the
  -- hash, in digits, of the line that dmidecode prints without its end, and empty if nothing is printed;
  -- and the last array is the hash of the first address of the machine.
  pub system_identifier_read-Named :
      (interfaces : Option (List Interface)) (stack : List ℕ) (id : SystemArrays)
      → Outside interfaces
      → Arrays id
      → length stack ≡ 6
      → (id' : SystemArrays) × (system_identifier_read sha1 run isspace interfaces stack id
          ≡ some (true, id'))
        × Named interfaces stack id'
  unfolding system_identifier_read
  system_identifier_read-Named interfaces stack id h a size =
      let (os, e1, p1) = Gives-value (os_read-Holds sha1 run isspace id.os a.os a.os_empty h.os) in
      let (system, e2, p2) =
        Gives-value (dmidecode_read-Holds sha1 run h.hash _ id.system a.system h.system) in
      let (chassis, e3, p3) =
        Gives-value (dmidecode_read-Holds sha1 run h.hash _ id.chassis a.chassis h.chassis) in
      let (baseboard, e4, p4) =
        Gives-value (dmidecode_read-Holds sha1 run h.hash _ id.baseboard a.baseboard h.baseboard) in
      let (mac, e5, p5) =
        Gives-value (sha1_calc-Holds sha1 run h.hash (address interfaces stack) id.mac a.mac) in
      (
        _,
        rw (e1, e2, e3, e4, mac_read_lem interfaces stack size h.addressed, e5) refl,
        record { os = p1; system = p2; chassis = p3; baseboard = p4; mac = p5 },
      )
