-- ===== src/Scan/Buckets.antt =====
-- The latency buckets of lib/diskscan.c. `none` is an access outside the graph or the sample array.
use diskscan.Base.{
  ℕ, ◌+◌, ◌/◌, Option, some, get_elem?, set, ltb, if◌then◌else◌, u32, uint32_max, ◌>>=◌,
}
use diskscan.Median.{median}
use diskscan.Scan.Types.{Disk, ScanState}

module _ {H : Type 0} where
  -- The `assert` of the source is the `none` of a bucket outside the graph.
  unfoldable pub latency_bucket_prepare : Disk H → ScanState → ℕ → Option (Disk H × ScanState)
  latency_bucket_prepare disk state offset = do
    l ← get_elem? disk.latency_graph state.latency_bucket
    some (
      record disk {
        latency_graph =
            set disk.latency_graph state.latency_bucket (record l {
              start_sector = offset / disk.sector_size;
              latency_min_msec = uint32_max;
            });
      },
      record state { latency_count = 0 },
    )

  unfoldable pub latency_bucket_finish : Disk H → ScanState → ℕ → Option (Disk H × ScanState)
  latency_bucket_finish disk state offset = do
    l ← get_elem? disk.latency_graph state.latency_bucket
    (m, samples) ← median state.latency state.latency_count
    some (
      record disk {
        latency_graph =
            set disk.latency_graph state.latency_bucket
              (record l { end_sector = offset / disk.sector_size; latency_median_msec = m });
      },
      record state {
        latency = samples;
        latency_count = 0;
        latency_bucket = u32 (state.latency_bucket + 1);
      },
    )

  unfoldable pub latency_bucket_add : Disk H → ℕ → ScanState → Option (Disk H × ScanState)
  latency_bucket_add disk latency state = do
    l ← get_elem? disk.latency_graph state.latency_bucket
    old ← get_elem? state.latency state.latency_count
    some (
      record disk {
        latency_graph = set disk.latency_graph state.latency_bucket (record l {
          latency_min_msec =
              if ltb latency l.latency_min_msec then u32 latency else l.latency_min_msec;
          latency_max_msec =
              if ltb l.latency_max_msec latency then u32 latency else l.latency_max_msec;
        });
      },
      record state {
        latency = set state.latency state.latency_count (u32 latency);
        latency_count = u32 (state.latency_count + 1);
      },
    )
