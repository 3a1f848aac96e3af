-- ===== src/Tests/Machine.antt =====
-- The names of a machine, lib/system_id.c, whose dmidecode prints a line and whose only interface with
-- an address is the second.
use diskscan.Base.{
  ℕ, zero, suc, Bool, ◌||◌, ◌≡◌, refl, true, false, some, Option, List, [], ◌∷◌, ◌++◌, length,
  replicate, codes, ◌==◌, arith,
}
use diskscan.SystemId.{
  SystemArrays, system_identifier_read, os_read, dmidecode_read, cmd_str, sha1_calc, print_digest,
  print_byte, strlen, store, line, chop_end, trim_end,
}
use diskscan.Cdb.{zero_bytes}
use diskscan.Report.Hex.{nibble_to_hex}
use diskscan.SystemId.Mac.{Interface, first_address}
use diskscan.SystemId.Read.{Named, Outside, Arrays, system_identifier_read-Named}

-- A hash that is the length of the text, twenty times.
abbrev lengths : List ℕ → List ℕ
lengths s = replicate 20 (length s)

lengths-size : (s : List ℕ) → length (lengths s) ≡ 20
lengths-size s = refl

-- What every command prints: "ab " and the end of a line.
abbrev prints : List ℕ → Option (List ℕ)
prints cmd = some (97 ∷ 98 ∷ 32 ∷ 10 ∷ [])

abbrev is_space : ℕ → Bool
is_space c = c == 32 || c == 10

abbrev interfaces : Option (List Interface)
interfaces = some (
    record { is_loopback = some true; hwaddr = some (replicate 14 0) }
    ∷ record { is_loopback = some false; hwaddr = some (1 ∷ 2 ∷ 3 ∷ 4 ∷ 5 ∷ 6 ∷ replicate 8 0) }
    ∷ [])

abbrev arrays : SystemArrays
arrays = record {
  os = replicate 64 0;
  system = replicate 64 0;
  chassis = replicate 64 0;
  baseboard = replicate 64 0;
  mac = replicate 64 0;
}

outside : Outside lengths prints is_space interfaces
outside = record {
  hash = lengths-size;
  os = omega arith;
  system = omega arith;
  chassis = omega arith;
  baseboard = omega arith;
  addressed = omega arith;
}

sized : Arrays lengths prints is_space arrays
sized = record {
  os = refl;
  os_empty = (_, refl);
  system = refl;
  chassis = refl;
  baseboard = refl;
  mac = refl;
}

abbrev digits : ℕ → List ℕ
digits zero = []
digits (suc n) = 48 ∷ 51 ∷ digits n

os_runs : os_read lengths prints is_space (replicate 64 0) 64 ≡ some (97 ∷ 98 ∷ replicate 62 0)
unfolding os_read cmd_str store line strlen trim_end
os_runs = refl

-- The hash is of the three characters before the end of the line.
dmidecode_runs :
    dmidecode_read lengths prints (codes "system-serial-number") (replicate 64 0) 64
    ≡ some (digits 20 ++ replicate 24 0)
unfolding dmidecode_read cmd_str store line strlen chop_end sha1_calc print_digest print_byte
    zero_bytes nibble_to_hex
dmidecode_runs = refl

system_identifier_read-Named_example :
    (id' : SystemArrays) × (system_identifier_read lengths prints is_space interfaces
        (replicate 6 7)
        arrays
      ≡ some (true, id'))
    × Named lengths prints is_space interfaces (replicate 6 7) id'
unfolding first_address
system_identifier_read-Named_example =
    system_identifier_read-Named lengths prints is_space interfaces (replicate 6 7) arrays outside
      sized refl
