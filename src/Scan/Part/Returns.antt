-- ===== src/Scan/Part/Returns.antt =====
-- When `disk_scan_part` of lib/diskscan.c returns.
use diskscan.Base.{
  ℕ, ◌+◌, ◌/◌, ◌^◌, ◌≤◌, ◌<◌, ◌≡◌, refl, ◌∙◌, Bool, true, false, length, arith, IsDefined-value,
  IsDefined-get_elem?, Gives, gives, Gives-step, Gives-mono, length-set,
}
use diskscan.Scan.Types.{Disk, ScanState, ReadOutcome, Platform, Histogram}
use diskscan.Scan.Buckets.{latency_bucket_add}
use mathlib.Core.Path.{sym}
use diskscan.Scan.Part.Repair.{InPlace, Fixable, fix_region-Fixable, read_into-eq}
use diskscan.Scan.Part.{
  is_uncorrected, log_read, account_read, finish_part, disk_scan_part, bail_out, go_on, Verdict,
  disk_scan_stop,
}

-- What stays: the sizes of the arrays, the bucket and the wish to fix; and `added` is how many samples
-- came in.
pub record Steady {H : Type 0} (d : Disk H) (s : ScanState) (d' : Disk H) (s' : ScanState)
    (added : ℕ) : Type 0 where
  pub graph_size : length d'.latency_graph ≡ length d.latency_graph
  pub samples_size : length s'.latency ≡ length s.latency
  pub bucket : s'.latency_bucket ≡ s.latency_bucket
  pub fix : d'.fix ≡ d.fix
  pub num_bytes : d'.num_bytes ≡ d.num_bytes
  pub buffer_size : length s'.buffer ≡ length s.buffer
  pub count : s'.latency_count ≡ s.latency_count + added

-- A bucket of the graph, and room for n more samples.
pub record Roomy {H : Type 0} (d : Disk H) (s : ScanState) (n : ℕ) : Type 0 where
  pub in_graph : s.latency_bucket < length d.latency_graph
  pub in_samples : s.latency_count + n ≤ length s.latency
  pub narrow : s.latency_count + n < 2 ^ 32

module _ {H : Type 0} where
  pub Steady-trans :
      {d d1 d2 : Disk H} {s s1 s2 : ScanState} {m n : ℕ}
      → Steady d s d1 s1 m
      → Steady d1 s1 d2 s2 n
      → Steady d s d2 s2 (m + n)
  Steady-trans k l = record {
    graph_size = l.graph_size ∙ k.graph_size;
    samples_size = l.samples_size ∙ k.samples_size;
    bucket = l.bucket ∙ k.bucket;
    fix = l.fix ∙ k.fix;
    num_bytes = l.num_bytes ∙ k.num_bytes;
    buffer_size = l.buffer_size ∙ k.buffer_size;
    count = omega (arith, k.count, l.count);
  }

  add-Steady :
      (d : Disk H) (latency : ℕ) (s : ScanState)
      → Roomy d s 1
      → Gives (λ r. Steady d s r.0 r.1 1) (latency_bucket_add d latency s)
  unfolding latency_bucket_add
  add-Steady d latency s h =
      let (l, e) =
        IsDefined-value (IsDefined-get_elem? d.latency_graph s.latency_bucket h.in_graph) in
      let (old, e') =
        IsDefined-value
          (IsDefined-get_elem? s.latency s.latency_count (omega (arith, h.in_samples))) in
      rw (e, e')
        (gives _ (record {
          graph_size = length-set d.latency_graph s.latency_bucket _;
          samples_size = length-set s.latency s.latency_count _;
          bucket = refl;
          fix = refl;
          num_bytes = refl;
          buffer_size = refl;
          count = omega (arith, h.narrow);
        }))

  account-Steady :
      (d : Disk H) (s : ScanState) (offset size : ℕ) (o : ReadOutcome)
      → length o.buffer ≡ length s.buffer
      → let r = account_read (log_read d offset size o) (record s { buffer = o.buffer }) o in
        Steady d s r.1 r.2 0
  unfolding account_read log_read disk_scan_stop
  account-Steady d s offset size o same = record {
    graph_size = ground arith;
    samples_size = ground arith;
    bucket = ground arith;
    fix = ground arith;
    num_bytes = ground arith;
    buffer_size = ground (arith, same);
    count = ground arith;
  }

  module _ {W : Type 0} (platform : Platform W) (hist : Histogram H)
      (in_place : InPlace platform hist) where
    -- A read that goes on has added its sample.
    abbrev pub Sampled : Disk H → ScanState → Bool × Disk H × ScanState × W → Type 0
    Sampled d s r = (r.0 ≡ true → Steady d s r.1 r.2 1)

    finish-Steady :
        (v : Verdict) (d : Disk H) (s : ScanState) (w : W) (offset size : ℕ) (o : ReadOutcome)
        → length o.buffer ≡ length s.buffer
        → size ≤ length o.buffer
        → size + 4096 < 2 ^ 31
        → (d.fix ≡ true → size ≡ 0 → is_uncorrected o.io_res.error ≡ false)
        → Roomy d s 1
        → Gives (Sampled d s) (finish_part platform hist v d s w offset size o)
    unfolding finish_part
    finish-Steady bail_out d s w offset size o same b l f h = gives _ (λ e. cc)
    finish-Steady go_on d s w offset size o same b l f h =
        Gives-step _
          (add-Steady (record d { histogram = hist.record_value d.histogram (o.t / 1000) })
            (o.t / 1000000) s
            (record { in_graph = h.in_graph; in_samples = h.in_samples; narrow = h.narrow }))
          λ a k.
            Gives-step _
              (fix_region-Fixable platform hist in_place a.0 w offset size o b l
                (λ t. f (sym k.fix ∙ t)))
              λ r q. gives _ (λ e. record {
                graph_size = k.graph_size;
                samples_size = k.samples_size;
                bucket = k.bucket;
                fix = k.fix;
                num_bytes = k.num_bytes;
                buffer_size = q ∙ same;
                count = k.count;
              })

    -- A read with a bucket, room for a sample and a buffer for its bytes returns; where the scan
    -- fixes, if a read of no bytes is not uncorrected.
    pub part-Sampled :
        (d : Disk H) (s : ScanState) (w : W) (offset size : ℕ)
        → Fixable platform hist d.fix (length s.buffer) size
        → Roomy d s 1
        → Gives (Sampled d s) (disk_scan_part platform hist d s w offset size)
    unfolding disk_scan_part
    part-Sampled d s w offset size (quiet, small, room) h =
        let o = (platform.read w offset size s.buffer).0 in
        let same = in_place.read w offset size s.buffer room in
        let k = account-Steady d s offset size o same in
        let asked : d.fix ≡ true → size ≡ 0 → is_uncorrected o.io_res.error ≡ false =
          λ t e. rw e (quiet t w offset s.buffer) in
        rw (read_into-eq platform hist w offset size s.buffer room) (
          Gives-mono
            (finish-Steady _ _ _ _ offset size o (sym (k.buffer_size ∙ sym same))
              (omega (arith, same, room)) small (λ t. asked (sym k.fix ∙ t))
              (record {
                in_graph = omega (arith, h.in_graph, k.bucket, k.graph_size);
                in_samples = omega (arith, h.in_samples, k.count, k.samples_size);
                narrow = omega (arith, h.narrow, k.count);
              }))
            λ r g e. Steady-trans k (g e))
