-- ===== src/Scan/Stride/Room.antt =====
-- The room that `disk_scan_latency_stride` of lib/diskscan.c needs for its samples.
use diskscan.Base.{ℕ, ◌+◌, ◌≤◌, refl, arith}
use diskscan.Scan.Types.{Disk, ScanState}
use diskscan.Scan.Part.Returns.{Steady, Roomy}
use diskscan.Scan.Stride.{progress_calc}

module _ {H : Type 0} where
  pub Steady-none : (d : Disk H) (s : ScanState) → Steady d s d s 0
  Steady-none d s = record {
    graph_size = refl;
    samples_size = refl;
    bucket = refl;
    fix = refl;
    num_bytes = refl;
    buffer_size = refl;
    count = omega arith;
  }

  pub progress-Steady :
      (d : Disk H) (s : ScanState) (add : ℕ) → Steady d s d (progress_calc d s add) 0
  unfolding progress_calc
  progress-Steady d s add = record {
    graph_size = refl;
    samples_size = ground arith;
    bucket = ground arith;
    fix = refl;
    num_bytes = refl;
    buffer_size = ground arith;
    count = ground arith;
  }

  -- Room that is left after some samples.
  pub Roomy-after :
      {d d' : Disk H} {s s' : ScanState} {m n : ℕ}
      → Steady d s d' s' m
      → Roomy d s (m + n)
      → Roomy d' s' n
  Roomy-after k h = record {
    in_graph = omega (arith, h.in_graph, k.bucket, k.graph_size);
    in_samples = omega (arith, h.in_samples, k.count, k.samples_size);
    narrow = omega (arith, h.narrow, k.count);
  }

  pub Roomy-less : {d : Disk H} {s : ScanState} {m n : ℕ} → m ≤ n → Roomy d s n → Roomy d s m
  Roomy-less le h = record {
    in_graph = h.in_graph;
    in_samples = omega (arith, h.in_samples);
    narrow = omega (arith, h.narrow);
  }
