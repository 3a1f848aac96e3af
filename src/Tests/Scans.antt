-- ===== src/Tests/Scans.antt =====
-- Scans of lib/diskscan.c on a drive of eight sectors with two latency buckets.
use mathlib.Core.List.{Perm}
use diskscan.Median.Ends.{median_ranks}
use diskscan.Median.Bounds.{elem}
use diskscan.Median.Rank.{Ranked}
use diskscan.Scan.Part.Account.{logged}
use diskscan.Base.{
  map, ℕ, List, ◌/◌, ◌^◌, ◌+◌, ◌*◌, ◌%◌, ◌≤◌, ◌<◌, ◌≡◌, refl, false, ◌&&◌, some, none, [], ◌∷◌,
  replicate, arith, length, get_elem?, if◌then◌else◌, ◌==◌, ltb, Option, uint32_max,
}
use diskscan.Sense.Info.{zero_info}
use diskscan.Median.{
  elem_swap, scan_up, scan_down, exchange, partition, narrow, kth_smallest, median,
}
use diskscan.Device.Types.{IoResult, data_full, data_none, error_none, error_uncorrected}
use diskscan.Scan.Types.{
  Disk, Latency, Platform, Histogram, scan_mode_seq, scan_mode_random, scan_problem,
  failed_io_errors,
}
use diskscan.Scan.Order.{
  calc_latency_stride, num_reads, order_entries, to_sectors, calc_scan_order_seq, calc_scan_order,
}
use diskscan.Scan.Order.Covers.{order_covers, order_wraps}
use diskscan.Scan.Buckets.{latency_bucket_prepare, latency_bucket_finish, latency_bucket_add}
use diskscan.Scan.Part.{
  data_log_raw, data_log, disk_scan_stop, log_read, account_read, read_into, write_from,
  zero_uncorrected, fix_region, finish_part, disk_scan_part,
}
use diskscan.Scan.Stride.{
  progress_calc, stride_limit, stride_round, stride_loop, disk_scan_latency_stride,
}
use diskscan.Scan.Run.{
  adjust_size, new_state, conclusion_calc, run_monitor, scan_stride, scan_loop, run_plan, disk_scan,
}
use mathlib.Core.List.{Perm}
use diskscan.Scan.Order.{shuffle, calc_scan_order_random}
use diskscan.Scan.Order.Shuffle.{calc_scan_order_random-perm}
use diskscan.Scan.Run.ReadOnly.{rewired, disk_scan_read_only}
use diskscan.Scan.Run.Empty.{disk_scan_empty_plan}

median_runs : median (5 ∷ 1 ∷ 4 ∷ 2 ∷ 3 ∷ []) 5 ≡ some (3, 2 ∷ 1 ∷ 3 ∷ 4 ∷ 5 ∷ [])
unfolding median kth_smallest narrow partition exchange scan_up scan_down elem_swap
median_runs = refl

abbrev clean : IoResult
clean = record { result = data_full; error = error_none; info = zero_info; sense = [] }

abbrev broken : IoResult
broken = record { result = data_none; error = error_uncorrected; info = zero_info; sense = [] }

-- The state counts the reads; the read at byte 2048 fails.
abbrev drive : Platform ℕ
drive = record {
  read = λ k offset size buffer. (
    record {
      buffer = buffer;
      io_res = if offset == 2048 then broken else clean;
      errno = 0;
      t = 7_000_000;
      stop = false;
    },
    k + 1,
  );
  write = λ k offset size buffer. (buffer, k);
  monitor = λ k. (false, k);
}

-- A histogram that keeps the largest value.
abbrev largest : Histogram ℕ
largest = record {
  record_value = λ h v. if ltb h v then v else h;
  max_value = λ h. h;
  value_at_percentile = λ h p. h;
}

abbrev bucket : Latency
bucket = record {
  start_sector = 0;
  end_sector = 0;
  latency_min_msec = 0;
  latency_max_msec = 0;
  latency_median_msec = 0;
}

abbrev opened : Disk ℕ
opened = record {
  is_ata = false;
  num_bytes = 4096;
  sector_size = 512;
  run = false;
  fix = false;
  num_errors = 0;
  histogram = 0;
  latency_graph_len = 2;
  latency_graph = bucket ∷ bucket ∷ [];
  conclusion = scan_problem;
  data_raw = some [];
  data_log = none;
}

result : Option (ℕ × Disk ℕ × ℕ)
unfolding median kth_smallest narrow partition exchange scan_up scan_down elem_swap
    calc_latency_stride num_reads order_entries to_sectors calc_scan_order_seq calc_scan_order
    latency_bucket_prepare latency_bucket_finish latency_bucket_add data_log_raw data_log
    disk_scan_stop log_read account_read read_into write_from zero_uncorrected fix_region
    finish_part disk_scan_part progress_calc stride_limit stride_round stride_loop
    disk_scan_latency_stride adjust_size new_state conclusion_calc run_monitor scan_stride scan_loop
    run_plan disk_scan
result = disk_scan drive largest (λ i. 0) (some (replicate 1024 0)) opened 0 scan_mode_seq 1024

abbrev after : Option (ℕ × Disk ℕ × ℕ) → Disk ℕ
after none = opened
after (some (ret, d, w)) = d

final : Disk ℕ
unfolding result
final = after result

-- Five reads, the last of each stride cut to one sector, and the failed one counted.
final_runs :
    (final.conclusion ≡ failed_io_errors)
    × (map {B = ℕ × ℕ} (λ e. (e.lba, e.len)) (logged final.data_raw)
        ≡ (7, 1) ∷ (5, 2) ∷ (4, 1) ∷ (2, 2) ∷ (0, 2) ∷ [])
unfolding final
final_runs = (refl, refl)

-- A drive whose sectors at byte 2048 cannot be read.
abbrev damaged : Platform ℕ
damaged = record drive {
  read = λ k offset size buffer. (
    record {
      buffer = buffer;
      io_res = if ltb 0 size && (offset == 2048) then broken else clean;
      errno = 0;
      t = 7_000_000;
      stop = false;
    },
    k + 1,
  );
}

order_covers_example :
    (1500 / (2 * 512) + 1 < length (calc_scan_order_seq 512 5 2))
    × (get_elem? (calc_scan_order_seq 512 5 2) (1500 / (2 * 512)) ≡ some (1 * 2 * 512))
    × (1 * 2 * 512 ≤ 1500)
    × (1500 < 1 * 2 * 512 + 2 * 512)
order_covers_example =
    order_covers 512 5 2 1500 (omega arith) (omega arith) (omega arith) (omega arith)

-- A stride of 2 ^ 32 + 102400 bytes.
order_wraps_example :
    let plan = calc_scan_order_seq 512 (2 ^ 23 + 200) 2 in
    (length plan ≡ (2 ^ 23 + 200) / 2 + 2)
    × (get_elem? plan (2 ^ 22 + 1) ≡ some ((2 ^ 22 + 1) * 2 * 512 % 2 ^ 32))
    × (get_elem? plan ((2 ^ 23 + 200) / 2 + 1) ≡ some uint32_max)
    × ((2 ^ 22 + 1) * 2 * 512 % 2 ^ 32 + 2 * 512 ≤ 2 ^ 32 + 70000)
order_wraps_example =
    order_wraps 512 (2 ^ 23 + 200) 2 (2 ^ 22 + 1) (2 ^ 32 + 70000) (omega arith) (omega arith)
      (omega arith)

median_ranks_example :
    (v : ℕ) × (a' : List ℕ) × (median (5 ∷ 1 ∷ 3 ∷ 9 ∷ []) 3 ≡ some (v, a'))
    × (length a' ≡ length {A = ℕ} (5 ∷ 1 ∷ 3 ∷ 9 ∷ []))
    × Perm a' (5 ∷ 1 ∷ 3 ∷ 9 ∷ [])
    × (v ≡ elem a' 1)
    × Ranked 3 1 a'
median_ranks_example = median_ranks (5 ∷ 1 ∷ 3 ∷ 9 ∷ []) 3 (omega arith) (omega arith)

disk_scan_read_only_example :
    disk_scan drive largest (λ i. 0) (some (replicate 1024 0)) opened 0 scan_mode_seq 1024
    ≡ disk_scan
        (rewired drive (λ k offset size buffer. ([], k + 100)) largest)
        largest
        (λ i. 0)
        (some (replicate 1024 0))
        opened
        0
        scan_mode_seq
        1024
disk_scan_read_only_example =
    disk_scan_read_only drive (λ k offset size buffer. ([], k + 100)) largest (λ i. 0)
      (some (replicate 1024 0)) opened 0 scan_mode_seq 1024 refl

-- The end mark may come to stand before reads that are then never done.
shuffled : calc_scan_order_random (λ i. 3) 512 4 2 ≡ some (uint32_max ∷ 0 ∷ 1024 ∷ 2048 ∷ [])
unfolding calc_scan_order_random shuffle calc_scan_order_seq num_reads order_entries
shuffled = refl

calc_scan_order_random-perm_example :
    (order : List ℕ) × (calc_scan_order_random (λ i. i * 7 + 3) 512 5 2 ≡ some order)
    × Perm order (calc_scan_order_seq 512 5 2)
calc_scan_order_random-perm_example = calc_scan_order_random-perm (λ i. i * 7 + 3) 512 5 2

-- `rand()` moves the end mark to the front and leaves the rest where it is.
abbrev mark_first : ℕ → ℕ
mark_first i = if i == 0 then 3 else i

disk_scan_empty_plan_example :
    disk_scan drive largest mark_first (some (replicate 1024 0)) opened 0 scan_mode_random 1024
    ≡ none
unfolding calc_latency_stride num_reads order_entries to_sectors calc_scan_order_seq calc_scan_order
    shuffle calc_scan_order_random adjust_size
disk_scan_empty_plan_example =
    disk_scan_empty_plan drive largest (1024 ∷ 2048 ∷ 0 ∷ []) mark_first (replicate 1024 0) opened 0
      scan_mode_random 1024 (omega arith) refl
