-- ===== src/Scan/Order.antt =====
-- The plan of a stride's reads in lib/diskscan.c: `calc_latency_stride` and `calc_scan_order`.
pub mod Covers
pub mod Shuffle
use diskscan.Base.{
  ℕ, zero, suc, ◌+◌, ◌-◌, ◌*◌, ◌/◌, ◌%◌, ◌^◌, Bool, true, false, Option, none, some, List, [], ◌∷◌,
  ◌++◌, get_elem?, set, ◌==◌, if◌then◌else◌, u32, widen, to_int, uint32_max, ◌>>=◌,
}
use diskscan.Scan.Types.{ScanMode, scan_mode_unknown, scan_mode_seq, scan_mode_random}

-- `disk->num_bytes`, `disk->sector_size` and `disk->latency_graph_len`
unfoldable pub calc_latency_stride : ℕ → ℕ → ℕ → ℕ
calc_latency_stride num_bytes sector_size latency_graph_len =
    num_bytes / sector_size / latency_graph_len + 1

unfoldable pub num_reads : ℕ → ℕ → ℕ
num_reads stride_size read_size_sectors = stride_size / read_size_sectors + 2

-- The entries i, i + 1, ... of the order, each cut to a `uint32_t`.
unfoldable pub order_entries : ℕ → ℕ → ℕ → ℕ → List ℕ
order_entries zero i read_size_sectors sector_size = []
order_entries (suc n) i read_size_sectors sector_size =
    u32 (i * read_size_sectors * sector_size)
    ∷ order_entries n (i + 1) read_size_sectors sector_size

unfoldable pub calc_scan_order_seq : ℕ → ℕ → ℕ → List ℕ
calc_scan_order_seq sector_size stride_size read_size_sectors =
    order_entries (num_reads stride_size read_size_sectors - 1) 0 read_size_sectors sector_size
    ++ uint32_max ∷ []

-- The shuffle of n rounds from i on; `rand i` is what `rand()` gives in round i.
unfoldable pub shuffle : (ℕ → ℕ) → ℕ → ℕ → ℕ → List ℕ → Option (List ℕ)
shuffle rand len zero i order = some order
shuffle rand len (suc n) i order =
    let j = rand i % len in
    if i == j then shuffle rand len n (i + 1) order else (do
      tmp ← get_elem? order i
      other ← get_elem? order j
      shuffle rand len n (i + 1) (set (set order i other) j tmp))

unfoldable pub calc_scan_order_random : (ℕ → ℕ) → ℕ → ℕ → ℕ → Option (List ℕ)
calc_scan_order_random rand sector_size stride_size read_size_sectors =
    let n = num_reads stride_size read_size_sectors in
    shuffle rand n (n - 1) 0 (calc_scan_order_seq sector_size stride_size read_size_sectors)

-- `int read_size_sectors` of an `int read_size`, as the 64-bit operand that it becomes.
unfoldable pub to_sectors : ℕ → ℕ → ℕ
to_sectors read_size sector_size = widen (to_int (widen read_size / sector_size))

-- The inner `none` is the NULL of an unknown mode.
unfoldable pub calc_scan_order : (ℕ → ℕ) → ℕ → ScanMode → ℕ → ℕ → Option (Option (List ℕ))
calc_scan_order rand sector_size scan_mode_seq stride_size read_size =
    some (some (calc_scan_order_seq sector_size stride_size (to_sectors read_size sector_size)))
calc_scan_order rand sector_size scan_mode_random stride_size read_size =
    calc_scan_order_random rand sector_size stride_size (to_sectors read_size sector_size)
    >>= λ order. some (some order)
calc_scan_order rand sector_size scan_mode_unknown stride_size read_size = some none
