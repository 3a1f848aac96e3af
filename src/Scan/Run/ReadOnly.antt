-- ===== src/Scan/Run/ReadOnly.antt =====
-- A scan of lib/diskscan.c that does not fix does not write.
use diskscan.Base.{
  ℕ, zero, suc, ◌+◌, ◌/◌, ◌≡◌, refl, ◌∙◌, ap, Bool, true, false, ◌&&◌, ◌||◌, Option, none, some,
  List, [], ◌∷◌, u64, ltb, if◌then◌else◌, get_elem?, ◌>>=◌, arith, to_int, Ensures, nothing, value,
  Ensures-bind, Ensures-step, Ensures-if,
}
use diskscan.Scan.Types.{Disk, ScanState, ReadOutcome, Platform, Histogram, ScanMode}
use diskscan.Median.{median}
use diskscan.Scan.Buckets.{latency_bucket_prepare, latency_bucket_finish}
use diskscan.Scan.Part.{
  disk_scan_stop, read_into, fix_region, finish_part, disk_scan_part, bail_out, go_on, Verdict,
}
use diskscan.Scan.Part.Account.{account-Keeps, add-Keeps}
use diskscan.Scan.Stride.{
  progress_calc, stride_round, stride_loop, disk_scan_latency_stride, is_over, remainder, cut_size,
}
use diskscan.Scan.Stride.Frame.{round-Keeps, stride-Keeps}
use diskscan.Scan.Run.{run_monitor, scan_stride, scan_loop, run_plan, disk_scan, conclusion_calc}

-- Two computations in step, where what holds of the first result makes what follows the same.
bind-eq {ℓ κ μ} :
    {A : Type ℓ} {B : Type κ} {P : A → Type μ} {m n : Option A} {f g : A → Option B}
    → m ≡ n
    → Ensures P m
    → ((a : A) → P a → f a ≡ g a)
    → (m >>= f) ≡ (n >>= g)
bind-eq {f = f} {g = g} e nothing k = ap (λ o. o >>= g) e
bind-eq {f = f} {g = g} e (value a p) k = k a p ∙ ap (λ o. o >>= g) e

bind-same {ℓ κ} :
    {A : Type ℓ} {B : Type κ} (m : Option A) {f g : A → Option B}
    → ((a : A) → f a ≡ g a)
    → (m >>= f) ≡ (m >>= g)
bind-same none k = refl
bind-same (some a) k = k a

bind-cong {ℓ κ} :
    {A : Type ℓ} {B : Type κ} {m n : Option A} (f : A → Option B) → m ≡ n → (m >>= f) ≡ (n >>= f)
bind-cong f e = ap (λ o. o >>= f) e

if-eq {ℓ} :
    {A : Type ℓ} (b : Bool) {x x' y y' : A}
    → x ≡ x'
    → y ≡ y'
    → (if b then x else y) ≡ (if b then x' else y')
if-eq true p q = p
if-eq false p q = q

module _ {W H : Type 0} (platform : Platform W) (other : W → ℕ → ℕ → List ℕ → List ℕ × W)
    (hist : Histogram H) where
  -- The same platform with other writes.
  abbrev pub rewired : Platform W
  rewired = record platform { write = other }

  fix_region-eq :
      (d : Disk H) (w : W) (offset size : ℕ) (o : ReadOutcome)
      → d.fix ≡ false
      → fix_region platform hist d w offset size o ≡ fix_region rewired hist d w offset size o
  unfolding fix_region
  fix_region-eq d w offset size o h = rw h refl

  finish-eq :
      (v : Verdict) (d : Disk H) (s : ScanState) (w : W) (offset size : ℕ) (o : ReadOutcome)
      → d.fix ≡ false
      → finish_part platform hist v d s w offset size o
        ≡ finish_part rewired hist v d s w offset size o
  unfolding finish_part
  finish-eq bail_out d s w offset size o h = refl
  finish-eq go_on d s w offset size o h =
      bind-eq refl (add-Keeps _ (o.t / 1000000) s)
        (λ a k. bind-cong _ (fix_region-eq a.0 w offset size o (k.fix ∙ h)))

  part-eq :
      (d : Disk H) (s : ScanState) (w : W) (offset size : ℕ)
      → d.fix ≡ false
      → disk_scan_part platform hist d s w offset size
        ≡ disk_scan_part rewired hist d s w offset size
  unfolding disk_scan_part read_into
  part-eq d s w offset size h =
      bind-same (read_into platform w offset size s.buffer) λ a.
        let k = account-Keeps d s offset size a.0 in finish-eq _ _ _ _ offset size _ (k.fix ∙ h)

  round-eq :
      (d : Disk H) (s : ScanState) (w : W) (stop offset size : ℕ)
      → d.fix ≡ false
      → stride_round platform hist d s w stop offset size
        ≡ stride_round rewired hist d s w stop offset size
  unfolding stride_round
  round-eq d s w stop offset size h =
      let past = ltb d.num_bytes offset || ltb d.num_bytes (u64 (offset + remainder stop offset)) in
      if-eq past {x = some (true, d, progress_calc d s size, w)} refl
        (part-eq d (progress_calc d s size) w offset (to_int (cut_size stop offset size)) h)

  stride_loop-eq :
      (d : Disk H) (s : ScanState) (w : W) (stop base size : ℕ) (order : List ℕ)
      → d.fix ≡ false
      → stride_loop platform hist d s w stop base size order
        ≡ stride_loop rewired hist d s w stop base size order
  unfolding stride_loop
  stride_loop-eq d s w stop base size [] h = refl
  stride_loop-eq d s w stop base size (entry ∷ rest) h = if-eq (is_over d entry) refl (
      bind-eq (round-eq d s w stop (u64 (base + entry)) size h)
        (round-Keeps platform hist d s w stop (u64 (base + entry)) size)
        (λ r k. if-eq r.0 (stride_loop-eq r.1 r.2 r.3 stop base _ rest (k.fix ∙ h)) refl))

  stride-eq :
      (d : Disk H) (s : ScanState) (w : W) (base size : ℕ) (order : List ℕ)
      → d.fix ≡ false
      → disk_scan_latency_stride platform hist d s w base size order
        ≡ disk_scan_latency_stride rewired hist d s w base size order
  unfolding disk_scan_latency_stride
  stride-eq d s w base size order h = stride_loop-eq d s w _ base size order h

  prepare-fix :
      (d : Disk H) (s : ScanState) (offset : ℕ)
      → d.fix ≡ false
      → Ensures (λ r. r.0.fix ≡ false) (latency_bucket_prepare d s offset)
  unfolding latency_bucket_prepare
  prepare-fix d s offset h =
      Ensures-bind (get_elem? d.latency_graph s.latency_bucket) _ (λ l. value _ h)

  finish-fix :
      (d : Disk H) (s : ScanState) (offset : ℕ)
      → d.fix ≡ false
      → Ensures (λ r. r.0.fix ≡ false) (latency_bucket_finish d s offset)
  unfolding latency_bucket_finish
  finish-fix d s offset h =
      Ensures-bind (get_elem? d.latency_graph s.latency_bucket) _
        (λ l. Ensures-bind (median s.latency s.latency_count) _ (λ m. value _ h))

  monitor-fix : (d : Disk H) (w : W) → d.fix ≡ false → (run_monitor platform hist d w).0.fix ≡ false
  unfolding run_monitor disk_scan_stop
  monitor-fix d w h = ground (arith, h)

  scan_stride-fix :
      (d : Disk H) (s : ScanState) (w : W) (offset size : ℕ) (order : List ℕ)
      → d.fix ≡ false
      → Ensures (λ r. r.1.fix ≡ false) (scan_stride platform hist d s w offset size order)
  unfolding scan_stride
  scan_stride-fix d s w offset size order h =
      Ensures-step _ (prepare-fix d (progress_calc d s 0) offset h) λ a h1.
        Ensures-step _ (stride-Keeps platform hist a.0 a.1 w offset size order) λ r k.
          Ensures-if r.0
            (Ensures-step _ (finish-fix r.1 r.2 _ (k.fix ∙ h1))
              λ b h3. value _ (monitor-fix b.0 r.3 h3))
            (value _ (k.fix ∙ h1))

  scan_stride-eq :
      (d : Disk H) (s : ScanState) (w : W) (offset size : ℕ) (order : List ℕ)
      → d.fix ≡ false
      → scan_stride platform hist d s w offset size order
        ≡ scan_stride rewired hist d s w offset size order
  unfolding scan_stride run_monitor
  scan_stride-eq d s w offset size order h =
      bind-eq refl (prepare-fix d (progress_calc d s 0) offset h)
        (λ a h1. bind-cong _ (stride-eq a.0 a.1 w offset size order h1))

  scan_loop-eq :
      (fuel : ℕ) (d : Disk H) (s : ScanState) (w : W) (offset size : ℕ) (order : List ℕ)
      → d.fix ≡ false
      → scan_loop platform hist fuel d s w offset size order
        ≡ scan_loop rewired hist fuel d s w offset size order
  unfolding scan_loop
  scan_loop-eq zero d s w offset size order h = refl
  scan_loop-eq (suc fuel) d s w offset size order h =
      if-eq (d.run && ltb offset d.num_bytes)
        (bind-eq (scan_stride-eq d s w offset size order h)
          (scan_stride-fix d s w offset size order h)
          (λ r h1. if-eq r.0 (scan_loop-eq fuel r.1 r.2 r.3 _ size order h1) refl))
        refl

  run_plan-eq :
      (d : Disk H) (s : ScanState) (w : W) (size : ℕ) (plan : Option (List ℕ))
      → d.fix ≡ false
      → run_plan platform hist d s w size plan ≡ run_plan rewired hist d s w size plan
  unfolding run_plan conclusion_calc
  run_plan-eq d s w size none h = refl
  run_plan-eq d s w size (some order) h =
      bind-cong _ (scan_loop-eq (d.latency_graph_len + 1) d s w 0 size order h)

  -- A scan that does not fix ends in the same way, with the same disk and the same state of the
  -- platform, whatever writes would do: it makes none.
  pub disk_scan_read_only :
      (rand : ℕ → ℕ) (buffer : Option (List ℕ)) (disk : Disk H) (w : W) (mode : ScanMode) (size : ℕ)
      → disk.fix ≡ false
      → disk_scan platform hist rand buffer disk w mode size
        ≡ disk_scan rewired hist rand buffer disk w mode size
  unfolding disk_scan
  disk_scan_read_only rand none disk w mode size h = refl
  disk_scan_read_only rand (some pages) disk w mode size h =
      bind-same _ (λ plan. run_plan-eq _ _ w _ plan h)
