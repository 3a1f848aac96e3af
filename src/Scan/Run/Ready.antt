-- ===== src/Scan/Run/Ready.antt =====
-- What holds between the strides of `disk_scan` of lib/diskscan.c; fx says whether it fixes, L is the length of its
-- buffer.
use diskscan.Base.{
  ℕ, suc, ◌+◌, ◌*◌, ◌^◌, ◌≤◌, ◌<◌, ◌≡◌, refl, ap, ◌∙◌, Bool, false, ◌||◌, length, ltb, u32, u64,
  sub64, arith, IsDefined-value, IsDefined-get_elem?, length-set, Gives, gives,
}
use diskscan.Scan.Types.{Disk, ScanState, Platform, Histogram}
use diskscan.Median.Ends.{median_ranks}
use diskscan.Scan.Buckets.{latency_bucket_prepare, latency_bucket_finish}
use diskscan.Scan.Part.{disk_scan_stop}
use diskscan.Scan.Part.Account.{Keeps}
use diskscan.Scan.Part.Returns.{Steady}
use diskscan.Scan.Stride.{progress_calc}
use diskscan.Scan.Run.{run_monitor}

pub bucket_inside : (b g u : ℕ) → b * u < g * u → b < g
bucket_inside b g u h = grind arith

next_bucket : (b u : ℕ) → (b + 1) * u ≡ b * u + u
next_bucket b u = grind arith

-- The first read of a stride lies inside the disk.
pub first_inside :
    (nb e offset : ℕ)
    → offset < nb
    → nb < 2 ^ 64
    → offset ≤ e
    → e ≤ nb
    → (ltb nb (u64 (offset + 0)) || ltb nb (u64 (u64 (offset + 0) + sub64 e (u64 (offset + 0)))))
      ≡ false
first_inside nb e offset h k l m =
    let p : u64 (offset + 0) ≡ offset = omega arith in
    let q : u64 (offset + sub64 e offset) ≡ e = omega arith in rw (p, q) (ground arith)

-- What holds before each stride: of G buckets and room for suc n samples, at the bucket's offset.
pub record Ready {H : Type 0} (fx : Bool) (L G stride ss nb n offset : ℕ) (d : Disk H)
    (s : ScanState) : Type 0 where
  pub fix : d.fix ≡ fx
  pub graph : length d.latency_graph ≡ G
  pub samples : suc n ≤ length s.latency
  pub place : offset ≡ s.latency_bucket * (stride * ss)
  pub is_stride : s.latency_stride ≡ stride
  pub is_sector : d.sector_size ≡ ss
  pub is_size : d.num_bytes ≡ nb
  pub room : length s.buffer ≡ L

module _ {H : Type 0} (fx : Bool) (L G stride ss nb n : ℕ) where
  pub prepare-Ready :
      (d : Disk H) (s : ScanState) (offset : ℕ)
      → Ready fx L G stride ss nb n offset d s
      → s.latency_bucket < G
      → Gives
          (λ r.
            Ready fx L G stride ss nb n offset r.0 r.1
            × (r.1.latency_count ≡ 0)
            × (r.0.run ≡ d.run)
            × (r.1.latency_bucket < G))
          (latency_bucket_prepare d (progress_calc d s 0) offset)
  unfolding latency_bucket_prepare progress_calc
  prepare-Ready d s offset h b =
      let (l, e) =
        IsDefined-value
          (IsDefined-get_elem? d.latency_graph s.latency_bucket (omega (arith, b, h.graph))) in
      rw e (
        gives _ (
          record {
            fix = h.fix;
            graph = length-set d.latency_graph s.latency_bucket _ ∙ h.graph;
            samples = h.samples;
            place = h.place;
            is_stride = h.is_stride;
            is_sector = h.is_sector;
            is_size = h.is_size;
            room = h.room;
          },
          refl,
          refl,
          b,
        ))

  pub finish-Ready :
      (d : Disk H) (s : ScanState) (offset x : ℕ)
      → Ready fx L G stride ss nb n offset d s
      → s.latency_bucket < G
      → G < 2 ^ 32
      → 0 < s.latency_count
      → s.latency_count ≤ suc n
      → Gives
          (λ r. Ready fx L G stride ss nb n (offset + stride * ss) r.0 r.1)
          (latency_bucket_finish d s x)
  unfolding latency_bucket_finish
  finish-Ready d s offset x h b g p q =
      let (l, e) =
        IsDefined-value
          (IsDefined-get_elem? d.latency_graph s.latency_bucket (omega (arith, b, h.graph))) in
      let (v, as', e', c, same, at, ranked) =
        median_ranks s.latency s.latency_count p (omega (arith, q, h.samples)) in
      let next : u32 (s.latency_bucket + 1) ≡ s.latency_bucket + 1 = omega (arith, b, g) in
      rw (e, e')
        (gives _ (record {
          fix = h.fix;
          graph = length-set d.latency_graph s.latency_bucket _ ∙ h.graph;
          samples = omega (arith, h.samples, c);
          place =
              rw (next, next_bucket s.latency_bucket (stride * ss))
                (ap (λ t. t + stride * ss) h.place);
          is_stride = h.is_stride;
          is_sector = h.is_sector;
          is_size = h.is_size;
          room = h.room;
        }))

  -- What a stride that goes on leaves.
  pub strode-Ready :
      (d d' : Disk H) (s s' : ScanState) (offset k : ℕ)
      → Ready fx L G stride ss nb n offset d s
      → Steady d s d' s' k
      → Keeps d s d' s'
      → Ready fx L G stride ss nb n offset d' s'
  strode-Ready d d' s s' offset k h st kp = record {
    fix = st.fix ∙ h.fix;
    graph = st.graph_size ∙ h.graph;
    samples = omega (arith, h.samples, st.samples_size);
    place = rw st.bucket h.place;
    is_stride = kp.stride ∙ h.is_stride;
    is_sector = kp.sector_size ∙ h.is_sector;
    is_size = kp.num_bytes ∙ h.is_size;
    room = st.buffer_size ∙ h.room;
  }

  pub monitor-Ready :
      {W : Type 0} (platform : Platform W) (hist : Histogram H) (d : Disk H) (s : ScanState) (w : W)
      (offset : ℕ)
      → Ready fx L G stride ss nb n offset d s
      → Ready fx L G stride ss nb n offset (run_monitor platform hist d w).0 s
  unfolding run_monitor disk_scan_stop
  monitor-Ready platform hist d s w offset h = record {
    fix = ground (arith, h.fix);
    graph = ground (arith, h.graph);
    samples = h.samples;
    place = h.place;
    is_stride = h.is_stride;
    is_sector = ground (arith, h.is_sector);
    is_size = ground (arith, h.is_size);
    room = h.room;
  }

-- The disk and the plan, and what they must be for a scan to return.
pub record Fits (G stride ss nb n : ℕ) : Type 0 where
  pub few_buckets : G < 2 ^ 32
  pub few_samples : suc n < 2 ^ 32
  pub no_wrap : nb + stride * ss < 2 ^ 64
  pub covered : nb ≤ G * (stride * ss)
