-- ===== src/Scan/Run/Returns.antt =====
-- When the loop of `disk_scan` of lib/diskscan.c over the strides returns.
use diskscan.Base.{
  length, ℕ, zero, suc, ◌+◌, ◌*◌, ◌^◌, ◌≤◌, ◌<◌, ◌≡◌, refl, sym, ◌∙◌, Bool, ◌⊎◌, inl, true, ◌&&◌,
  List, ◌∷◌, ltb, u64, arith, Gives, gives, Gives-step, Gives-if_of, Gives-and, IsDefined, defined,
  IsDefined-if_of, IsDefined-step,
}
use diskscan.Scan.Types.{Disk, ScanState, Platform, Histogram}
use diskscan.Scan.Stride.{stride_limit}
use diskscan.Scan.Stride.Frame.{stride-Keeps}
use diskscan.Scan.Part.Repair.{InPlace, Quiet}
use diskscan.Scan.Stride.Sizes.{Rises}
use diskscan.Scan.Stride.Returns.{Planned, Repairs, stride-Strode}
use diskscan.Scan.Run.{scan_stride, scan_loop}
use diskscan.Scan.Run.Ready.{
  Ready, Fits, bucket_inside, first_inside, prepare-Ready, finish-Ready, strode-Ready,
  monitor-Ready,
}

limit_inside :
    {H : Type 0} (d : Disk H) (s : ScanState) (offset u : ℕ)
    → s.latency_stride * d.sector_size ≡ u
    → offset < d.num_bytes
    → d.num_bytes + u < 2 ^ 64
    → (offset ≤ stride_limit d s offset) × (stride_limit d s offset ≤ d.num_bytes)
unfolding stride_limit
limit_inside d s offset u e h k = rw e (ground arith, ground arith)

room_below : (b g u : ℕ) → b < g → b * u + u ≤ g * u
room_below b g u h = grind arith

module _ {H W : Type 0} (platform : Platform W) (hist : Histogram H) (fx : Bool)
    (L G stride ss nb n : ℕ) (in_place : InPlace platform hist) (fits : Fits G stride ss nb n)
    (rest : List ℕ) (plan : Planned n rest) where
  -- What a scan asks of the disk, of the size of its reads, of its plan and of its buffer and, if it
  -- fixes, of the device.
  abbrev pub Fixing : ℕ → Type 0
  Fixing size =
      (fx ≡ true → Quiet platform hist)
      × (nb + stride * ss < 2 ^ 63)
      × (size + 4096 < 2 ^ 31)
      × Rises (stride * ss) 0 (0 ∷ rest)
      × (size ≤ L)

  limit_cases :
      (d : Disk H) (s : ScanState) (offset : ℕ)
      → s.latency_stride * d.sector_size ≡ stride * ss
      → d.num_bytes ≡ nb
      → offset < nb
      → nb + stride * ss < 2 ^ 63
      → let se = stride_limit d s offset in
        (se ≡ offset + stride * ss) × (se ≤ d.num_bytes) ⊎ (se ≡ d.num_bytes)
  unfolding stride_limit
  limit_cases d s offset e k h l = rw e (ground (arith, k))

  Fixing-Repairs :
      (d : Disk H) (s : ScanState) (offset size : ℕ)
      → Ready fx L G stride ss nb n offset d s
      → offset < nb
      → Fixing size
      → Repairs platform hist in_place d.fix
          (length s.buffer)
          d.num_bytes
          offset
          (stride * ss)
          size
          (stride_limit d s offset)
          size
          (0 ∷ rest)
  Fixing-Repairs d s offset size h b (quiet, wide, small, rises, room) = (
    (λ t. quiet (sym h.fix ∙ t)),
    omega (arith, room, h.room),
    record {
      inside = omega (arith, b, h.is_size);
      no_wrap = omega (arith, wide, h.is_size);
      small = small;
      limit = limit_cases d s offset (rw (h.is_stride, h.is_sector) refl) h.is_size b wide;
    },
    (0, rises, inl (omega arith)),
  )

  bucket-lt :
      (d : Disk H) (s : ScanState) (offset : ℕ)
      → Ready fx L G stride ss nb n offset d s
      → offset < nb
      → s.latency_bucket < G
  bucket-lt d s offset h b =
      bucket_inside s.latency_bucket G (stride * ss) (omega (arith, h.place, fits.covered, b))

  strides-Ready :
      (d : Disk H) (s : ScanState) (w : W) (offset size : ℕ)
      → Ready fx L G stride ss nb n offset d s
      → Fixing size
      → d.run ≡ true
      → offset < nb
      → Gives
          (λ r. r.0 ≡ true → Ready fx L G stride ss nb n (offset + stride * ss) r.1 r.2)
          (scan_stride platform hist d s w offset size (0 ∷ rest))
  unfolding scan_stride
  strides-Ready d s w offset size h fixing run b =
      Gives-step _ (prepare-Ready fx L G stride ss nb n d s offset h (bucket-lt d s offset h b))
        λ a (h1, count, run1, bucket).
          let unit : a.1.latency_stride * a.0.sector_size ≡ stride * ss =
            rw (h1.is_stride, h1.is_sector) refl in
          let below : offset < a.0.num_bytes = omega (arith, b, h1.is_size) in
          let lim =
            limit_inside a.0 a.1 offset (stride * ss) unit below
              (omega (arith, fits.no_wrap, h1.is_size)) in
          Gives-step _
            (Gives-and
              (stride-Strode platform hist in_place n a.0 a.1 w offset size 0 (stride * ss) size
                plan (Fixing-Repairs a.0 a.1 offset size h1 b fixing)
                (record {
                  in_graph = omega (arith, bucket, h1.graph);
                  in_samples = omega (arith, count, h1.samples);
                  narrow = omega (arith, count, fits.few_samples);
                })
                (rw (run1 ∙ run) refl)
                (first_inside a.0.num_bytes (stride_limit a.0 a.1 offset) offset below
                  (omega (arith, fits.no_wrap, h1.is_size)) lim.0 lim.1))
              (stride-Keeps platform hist a.0 a.1 w offset size (0 ∷ rest)))
            λ r (g, kp).
              Gives-if_of r.0
                (λ t.
                  let (k, lo, hi, st) = g t in
                  let h2 = strode-Ready fx L G stride ss nb n a.0 r.1 a.1 r.2 offset k h1 st kp in
                  Gives-step _
                    (finish-Ready fx L G stride ss nb n r.1 r.2 offset _ h2
                      (omega (arith, bucket, st.bucket)) fits.few_buckets
                      (omega (arith, st.count, lo)) (omega (arith, st.count, hi, count)))
                    λ f h3.
                      gives _
                        (λ t'. monitor-Ready fx L G stride ss nb n platform hist f.0 f.1 r.3 _ h3))
                (λ t. gives _ (λ t'. cc))

  pub loop-IsDefined :
      (fuel : ℕ) (d : Disk H) (s : ScanState) (w : W) (offset size : ℕ)
      → Ready fx L G stride ss nb n offset d s
      → Fixing size
      → offset ≤ G * (stride * ss)
      → G * (stride * ss) < offset + fuel * (stride * ss)
      → IsDefined (scan_loop platform hist fuel d s w offset size (0 ∷ rest))
  unfolding scan_loop
  loop-IsDefined zero d s w offset size h fixing l f = absurd (omega arith)
  loop-IsDefined (suc fuel) d s w offset size h fixing l f =
      IsDefined-if_of (d.run && ltb offset d.num_bytes)
        (λ e.
          let run : d.run ≡ true = ground arith in
          let below : offset < nb = ground (arith, h.is_size) in
          IsDefined-step _ (strides-Ready d s w offset size h fixing run below) λ r g.
            IsDefined-if_of r.0
              (λ t.
                let h' = g t in
                let next : u64 (offset + r.2.latency_stride * r.1.sector_size)
                    ≡ offset + stride * ss =
                  rw (h'.is_stride, h'.is_sector) (omega (arith, fits.no_wrap, below)) in
                let inside =
                  room_below s.latency_bucket G (stride * ss) (bucket-lt d s offset h below) in
                rw next (
                  loop-IsDefined fuel r.1 r.2 r.3 (offset + stride * ss) size h' fixing
                    (omega (arith, inside, h.place))
                    (omega (arith, f, more_fuel fuel (stride * ss)))))
              (λ t. defined _))
        (λ e. defined _)
    where
      more_fuel : (fuel u : ℕ) → suc fuel * u ≡ fuel * u + u
      more_fuel fuel u = grind arith
