-- ===== src/SystemId.antt =====
-- The texts that name the machine, lib/system_id.c, with `mac_read` of arch/arch-linux.c. What a
-- command prints (`none` where it cannot be run), the network interfaces, `isspace` and SHA-1 are
-- parameters. An access outside an array is `none`.
pub mod Mac
pub mod Texts
pub mod Names
pub mod Read
use diskscan.Base.{
  ℕ, zero, suc, ◌+◌, ◌-◌, ◌*◌, ◌/◌, ◌%◌, ◌^◌, Bool, true, false, ◌||◌, not, Option, some, none,
  List, [], ◌∷◌, ◌++◌, length, get_elem?, set, take, drop, leb, ◌==◌, if◌then◌else◌, ◌>>=◌, codes,
}
use diskscan.Cdb.{zero_bytes}
use diskscan.Report.Hex.{nibble_to_hex}
use Mac.{Interface, mac_read}

-- `system_identifier_t`, its five arrays.
pub record SystemArrays : Type 0 where
  pub os : List ℕ
  pub system : List ℕ
  pub chassis : List ℕ
  pub baseboard : List ℕ
  pub mac : List ℕ

abbrev pub write : List ℕ → ℕ → ℕ → Option (List ℕ)
write s i v = get_elem? s i >>= λ old. some (set s i v)

-- `sprintf(out + i, "%02X", b)`
unfoldable pub print_byte : List ℕ → ℕ → ℕ → Option (List ℕ)
print_byte out i b = do
  o1 ← write out i (nibble_to_hex (b / 2 ^ 4))
  o2 ← write o1 (i + 1) (nibble_to_hex (b % 2 ^ 4))
  write o2 (i + 2) 0

-- The loop over the digest, from the offset i of the text on.
unfoldable pub print_digest : List ℕ → ℕ → List ℕ → Option (List ℕ)
print_digest [] i out = some out
print_digest (b ∷ digest) i out = print_byte out i b >>= λ o. print_digest digest (i + 2) o

-- The characters that `fgets` stores of what it reads: up to the end of a line, n at most.
unfoldable pub line : ℕ → List ℕ → List ℕ
line zero s = []
line (suc n) [] = []
line (suc n) (c ∷ s) = let rest = line n s in if c == 10 then c ∷ [] else c ∷ rest

-- They are stored at the start of the array, with a zero behind them.
unfoldable pub store : List ℕ → List ℕ → Option (List ℕ)
store text buf =
    if leb (length text + 1) (length buf)
    then some (text ++ 0 ∷ drop (length text + 1) buf)
    else none

unfoldable pub strlen : List ℕ → Option ℕ
strlen [] = none
strlen (c ∷ s) = let rest = strlen s in if c == 0 then some 0 else (rest >>= λ n. some (n + 1))

-- The last of n characters is taken off if it ends a line; without a character this is the one before
-- the array.
unfoldable pub chop_end : List ℕ → ℕ → Option (List ℕ × ℕ)
chop_end buf zero = none
chop_end buf (suc n) =
    get_elem? buf n >>= λ c. some (if c == 13 || c == 10 then (set buf n 0, n) else (buf, suc n))

-- The loop of `os_read` over the n characters from the last one down.
unfoldable pub trim_end : (ℕ → Bool) → ℕ → List ℕ → Option (List ℕ)
trim_end isspace zero buf = some buf
trim_end isspace (suc n) buf = get_elem? buf n >>= λ c. elim (isspace c) [
  | false ↦ some buf
  | true ↦ trim_end isspace n (set buf n 0)
]

-- `SHA1_DIGEST_SIZE`
abbrev pub sha1_digest_size : ℕ
sha1_digest_size = 20

module _ (sha1 : List ℕ → List ℕ) (run : List ℕ → Option (List ℕ)) where
  -- The assertion on `out_size` is the `none` of a text that is too long.
  unfoldable pub sha1_calc : List ℕ → List ℕ → ℕ → Option (List ℕ)
  sha1_calc src out out_size =
      if leb (sha1_digest_size * 2 + 1) out_size then print_digest (sha1 src) 0 out else none

  -- The flag, and the array of `len` characters.
  unfoldable pub cmd_str : List ℕ → List ℕ → ℕ → Option (Bool × List ℕ)
  cmd_str cmd buf len = elim (run cmd) [
    | none ↦ some (false, buf)
    | some [] ↦ some (false, buf)
    | some (c ∷ out) ↦ store (line (len - 1) (c ∷ out)) buf >>= λ b. some (true, b)
  ]

  unfoldable pub dmidecode_read : List ℕ → List ℕ → ℕ → Option (List ℕ)
  dmidecode_read field_name buf len = do
    (printed, b1) ← cmd_str (codes "dmidecode -s " ++ field_name) (zero_bytes buf 0 len) len
    if not printed then some b1 else (do
      n ← strlen b1
      (b2, actual_len) ← chop_end b1 n
      sha1_calc (take actual_len b2) b2 len)

  unfoldable pub os_read : (ℕ → Bool) → List ℕ → ℕ → Option (List ℕ)
  os_read isspace buf len = do
    (printed, b1) ← cmd_str (codes "uname -o") buf len
    n ← strlen b1
    trim_end isspace n b1

  -- `stack` is what the local array `mac` holds before it is written.
  unfoldable pub system_identifier_read :
      (ℕ → Bool) → Option (List Interface) → List ℕ → SystemArrays → Option (Bool × SystemArrays)
  system_identifier_read isspace interfaces stack id = do
    os ← os_read isspace id.os 64
    system ← dmidecode_read (codes "system-serial-number") id.system 64
    chassis ← dmidecode_read (codes "chassis-serial-number") id.chassis 64
    baseboard ← dmidecode_read (codes "baseboard-serial-number") id.baseboard 64
    address ← mac_read interfaces stack 6
    mac ← sha1_calc address id.mac 64
    some (
      true,
      record { os = os; system = system; chassis = chassis; baseboard = baseboard; mac = mac },
    )
