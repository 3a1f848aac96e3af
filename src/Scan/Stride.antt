-- ===== src/Scan/Stride.antt =====
-- `progress_calc` and `disk_scan_latency_stride` of lib/diskscan.c. `none` is an access outside an
-- array: of the plan, where its end mark is missing, or in `disk_scan_part`.
pub mod Frame
pub mod Sizes
pub mod Room
pub mod Returns
use diskscan.Base.{
  ℕ, ◌+◌, ◌*◌, ◌/◌, Bool, true, false, ◌||◌, not, Option, none, some, List, [], ◌∷◌, ltb, ◌==◌,
  if◌then◌else◌, u64, sub64, slt64, uint32_max, ◌>>=◌, to_int,
}
use diskscan.Scan.Types.{Disk, ScanState, Platform, Histogram}
use diskscan.Scan.Part.{disk_scan_part}

unfoldable pub progress_calc : {H : Type 0} → Disk H → ScanState → ℕ → ScanState
progress_calc disk state add =
    if add == 0
    then record state { reports = state.progress_part ∷ state.reports }
    else (let bytes = u64 (state.progress_bytes + add) in
        let part = to_int (u64 (bytes * state.progress_full) / disk.num_bytes) in
        record state {
          progress_bytes = bytes;
          progress_part = part;
          reports = if part == state.progress_part then state.reports else part ∷ state.reports;
        })

-- `stride_end`
unfoldable pub stride_limit : {H : Type 0} → Disk H → ScanState → ℕ → ℕ
stride_limit disk state base_offset =
    let e = u64 (base_offset + state.latency_stride * disk.sector_size) in
    if ltb disk.num_bytes e then disk.num_bytes else e

-- The loop ends by `disk->run` or at the end mark of the plan.
abbrev pub is_over : {H : Type 0} → Disk H → ℕ → Bool
is_over disk entry = not disk.run || entry == uint32_max

-- `remainder`, an `int64_t` pattern, and the size after the check for the last part.
abbrev pub remainder : ℕ → ℕ → ℕ
remainder stride_end offset = sub64 stride_end offset

abbrev pub cut_size : ℕ → ℕ → ℕ → ℕ
cut_size stride_end offset data_size =
    if slt64 (remainder stride_end offset) data_size then remainder stride_end offset else data_size

module _ {W H : Type 0} (platform : Platform W) (hist : Histogram H) where
  -- One round at an offset: a read, or nothing where the offset lies past the end of the disk.
  unfoldable pub stride_round :
      Disk H → ScanState → W → ℕ → ℕ → ℕ → Option (Bool × Disk H × ScanState × W)
  stride_round disk state w stride_end offset data_size =
      let s1 = progress_calc disk state data_size in
      if ltb disk.num_bytes offset
        || ltb disk.num_bytes (u64 (offset + remainder stride_end offset))
      then some (true, disk, s1, w)
      else disk_scan_part platform hist disk s1 w offset
          (to_int (cut_size stride_end offset data_size))

  -- The loop over the plan; the size that one round has cut stays cut in the later rounds.
  unfoldable pub stride_loop :
      Disk H → ScanState → W → ℕ → ℕ → ℕ → List ℕ → Option (Bool × Disk H × ScanState × W)
  stride_loop disk state w stride_end base_offset data_size [] = none
  stride_loop disk state w stride_end base_offset data_size (entry ∷ rest) =
      if is_over disk entry then some (true, disk, state, w) else (do
        (go_on, d2, s2, w2) ←
            stride_round disk state w stride_end (u64 (base_offset + entry)) data_size
        if go_on
            then stride_loop d2 s2 w2 stride_end base_offset
                (cut_size stride_end (u64 (base_offset + entry)) data_size) rest
            else some (false, d2, s2, w2))

  unfoldable pub disk_scan_latency_stride :
      Disk H → ScanState → W → ℕ → ℕ → List ℕ → Option (Bool × Disk H × ScanState × W)
  disk_scan_latency_stride disk state w base_offset data_size scan_order =
      stride_loop disk state w (stride_limit disk state base_offset) base_offset data_size
        scan_order
