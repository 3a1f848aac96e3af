-- ===== src/Report/Hex.antt =====
-- The hexadecimal dump of lib/data.c.
use diskscan.Base.{ℕ, ◌+◌, ◌-◌, ◌/◌, ◌%◌, ◌^◌, List, [], ◌∷◌, ltb, leb, if◌then◌else◌}

unfoldable pub nibble_to_hex : ℕ → ℕ
nibble_to_hex nibble = if ltb nibble 10 then 48 + nibble else 65 + nibble - 10

-- What is written before the zero at the end, into `out_buf_len` characters.
unfoldable pub buf_to_hex : List ℕ → ℕ → List ℕ
buf_to_hex [] out_buf_len = []
buf_to_hex (b ∷ buf) out_buf_len =
    let rest = buf_to_hex buf (out_buf_len - 2) in
    if leb 3 out_buf_len then nibble_to_hex (b / 2 ^ 4) ∷ nibble_to_hex (b % 2 ^ 4) ∷ rest else []
