-- ===== src/Scan/Part/Account.antt =====
-- What `disk_scan_part` of lib/diskscan.c leaves alone, and how it counts errors.
use diskscan.Base.{
  ℕ, suc, ◌+◌, ◌≡◌, refl, ◌∙◌, some, none, Option, List, [], ◌∷◌, u64, u32, widen, ◌/◌, arith,
  get_elem?, if◌then◌else◌, Ensures, value, Ensures-bind, Ensures-step, Ensures-mono,
}
use diskscan.Scan.Types.{Disk, ScanState, ReadOutcome, Platform, Histogram, LogEvent}
use diskscan.Scan.Buckets.{latency_bucket_add}
use diskscan.Scan.Part.{
  has_error, log_read, account_read, fix_region, finish_part, disk_scan_part, disk_scan_stop,
  data_log_raw, read_into, bail_out, go_on, Verdict,
}

-- The events of a log that report an error or incomplete data.
abbrev pub count_bad : List LogEvent → ℕ
count_bad [] = 0
count_bad (e ∷ es) = if has_error e.io_res then suc (count_bad es) else count_bad es

abbrev pub logged : Option (List LogEvent) → List LogEvent
logged none = []
logged (some es) = es

-- What stays, and the errors counted against those logged; the raw log stays open.
pub record Keeps {H : Type 0} (d : Disk H) (s : ScanState) (d' : Disk H) (s' : ScanState)
    : Type 0 where
  pub num_bytes : d'.num_bytes ≡ d.num_bytes
  pub sector_size : d'.sector_size ≡ d.sector_size
  pub fix : d'.fix ≡ d.fix
  pub graph_len : d'.latency_graph_len ≡ d.latency_graph_len
  pub stride : s'.latency_stride ≡ s.latency_stride
  pub bucket : s'.latency_bucket ≡ s.latency_bucket
  pub errors :
      (e : ℕ) (es : List LogEvent)
      → d.data_raw ≡ some es
      → d.num_errors ≡ u64 (e + count_bad es)
      → (es' : List LogEvent) × (d'.data_raw ≡ some es') × (d'.num_errors ≡ u64 (e + count_bad es'))

module _ {H : Type 0} where
  pub Keeps-refl : (d : Disk H) (s : ScanState) → Keeps d s d s
  Keeps-refl d s = record {
    num_bytes = refl;
    sector_size = refl;
    fix = refl;
    graph_len = refl;
    stride = refl;
    bucket = refl;
    errors = λ e es p q. (es, p, q);
  }

  pub Keeps-trans :
      {d d1 d2 : Disk H} {s s1 s2 : ScanState}
      → Keeps d s d1 s1
      → Keeps d1 s1 d2 s2
      → Keeps d s d2 s2
  Keeps-trans k l = record {
    num_bytes = l.num_bytes ∙ k.num_bytes;
    sector_size = l.sector_size ∙ k.sector_size;
    fix = l.fix ∙ k.fix;
    graph_len = l.graph_len ∙ k.graph_len;
    stride = l.stride ∙ k.stride;
    bucket = l.bucket ∙ k.bucket;
    errors = λ e es p q. let (es1, p1, q1) = k.errors e es p q in l.errors e es1 p1 q1;
  }

  pub add-Keeps :
      (d : Disk H) (latency : ℕ) (s : ScanState)
      → Ensures (λ r. Keeps d s r.0 r.1) (latency_bucket_add d latency s)
  unfolding latency_bucket_add
  add-Keeps d latency s = Ensures-bind (get_elem? d.latency_graph s.latency_bucket) _ λ l.
      Ensures-bind (get_elem? s.latency s.latency_count) _ λ old. value _ (record {
        num_bytes = refl;
        sector_size = refl;
        fix = refl;
        graph_len = refl;
        stride = refl;
        bucket = refl;
        errors = λ e es p q. (es, p, q);
      })

  logged_event : Disk H → ℕ → ℕ → ReadOutcome → LogEvent
  logged_event d offset size o = record {
    lba = offset / d.sector_size;
    len = u32 (widen size / d.sector_size);
    io_res = o.io_res;
    t_nsec = u32 o.t;
  }

  pub account-Keeps :
      (d : Disk H) (s : ScanState) (offset size : ℕ) (o : ReadOutcome)
      → let r = account_read (log_read d offset size o) (record s { buffer = o.buffer }) o in
        Keeps d s r.1 r.2
  unfolding account_read log_read data_log_raw disk_scan_stop logged_event
  account-Keeps d s offset size o = record {
    num_bytes = ground arith;
    sector_size = ground arith;
    fix = ground arith;
    graph_len = ground arith;
    stride = ground arith;
    bucket = ground arith;
    errors = λ e es p q. (logged_event d offset size o ∷ es, ground arith, ground arith);
  }

  module _ {W : Type 0} (platform : Platform W) (hist : Histogram H) where
    finish-Keeps :
        (v : Verdict) (d : Disk H) (s : ScanState) (w : W) (offset size : ℕ) (o : ReadOutcome)
        → Ensures (λ r. Keeps d s r.1 r.2) (finish_part platform hist v d s w offset size o)
    unfolding finish_part
    finish-Keeps bail_out d s w offset size o = value _ (Keeps-refl d s)
    finish-Keeps go_on d s w offset size o = Ensures-step _ (add-Keeps _ (o.t / 1000000) s) λ a k.
        Ensures-bind (fix_region platform hist a.0 w offset size o) _ λ b. value _ (record {
          num_bytes = k.num_bytes;
          sector_size = k.sector_size;
          fix = k.fix;
          graph_len = k.graph_len;
          stride = k.stride;
          bucket = k.bucket;
          errors = k.errors;
        })

    -- One read keeps the geometry, and counts an error exactly where it logs one.
    pub part-Keeps :
        (d : Disk H) (s : ScanState) (w : W) (offset size : ℕ)
        → Ensures (λ r. Keeps d s r.1 r.2) (disk_scan_part platform hist d s w offset size)
    unfolding disk_scan_part
    part-Keeps d s w offset size = Ensures-bind (read_into platform w offset size s.buffer) _ λ a.
        Ensures-mono (finish-Keeps _ _ _ _ offset size _)
          λ r k. Keeps-trans (account-Keeps d s offset size a.0) k
