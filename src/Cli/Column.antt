-- ===== src/Cli/Column.antt =====
-- The marks of a column of the latency graph of cli/cli.c.
use diskscan.Base.{ℕ, ◌+◌, ◌*◌, ◌/◌, ◌<◌, ◌≤◌, ◌≡◌, ◌↔◌, arith, u32, ◌^◌, List}
use native.Mathlib.Nat.{div-le_self, mod-eq_of_lt, lt-div-mul-add, div-lt_iff_lt-mul}
use diskscan.Scan.Types.{Latency}
use diskscan.Cli.Graph.{Heights, height_interval, apart, heights, mark}

div_mono : {a b k : ℕ} → 0 < k → a ≤ b → a / k ≤ b / k
div_mono {a} {b} {k} hk h =
    let above : b < b / k * k + k = lt-div-mul-add hk in
    let step : (b / k + 1) * k ≡ b / k * k + k = grind arith in
    let low : a / k < b / k + 1 = (div-lt_iff_lt-mul hk).1 (omega (arith, above, step)) in
    omega (arith, low)

interval_pos : (graph : List Latency) → 0 < height_interval graph
unfolding height_interval
interval_pos graph = ground arith

-- Three lines in their order, which leave room for two more, are moved to three different ones.
pub record Stacked (h : Heights) : Type 0 where
  pub low : h.min_height < h.med_height
  pub high : h.med_height < h.max_height

apart-Stacked : (c b a : ℕ) → a ≤ b → b ≤ c → c + 2 < 2 ^ 32 → Stacked (apart c b a)
unfolding apart
apart-Stacked c b a h1 h2 h3 = record { low = ground arith; high = ground arith }

mark_lem :
    (h : Heights) (j : ℕ)
    → Stacked h
    → ((mark h j ≡ 94) ↔ (j ≡ h.max_height))
      × ((mark h j ≡ 42) ↔ (j ≡ h.med_height))
      × ((mark h j ≡ 95) ↔ (j ≡ h.min_height))
unfolding mark
mark_lem h j s =
    let low = s.low in
    let high = s.high in
    (
      (λ e. ground (arith, e, low, high), λ e. ground (arith, e, low, high)),
      (λ e. ground (arith, e, low, high), λ e. ground (arith, e, low, high)),
      (λ e. ground (arith, e, low, high), λ e. ground (arith, e, low, high)),
    )

-- In a column of a graph whose minimum, median and maximum are in their order, below 2^32 - 3
-- milliseconds, the three marks stand above each other, each at one height: `_` for the minimum
-- lowest and `^` for the maximum highest.
pub column-marks :
    (graph : List Latency) (l : Latency) (j : ℕ)
    → l.latency_min_msec ≤ l.latency_median_msec
    → l.latency_median_msec ≤ l.latency_max_msec
    → l.latency_max_msec + 3 < 2 ^ 32
    → let h = heights (height_interval graph) l in
      Stacked h
      × ((mark h j ≡ 94) ↔ (j ≡ h.max_height))
      × ((mark h j ≡ 42) ↔ (j ≡ h.med_height))
      × ((mark h j ≡ 95) ↔ (j ≡ h.min_height))
unfolding heights
column-marks graph l j h1 h2 h3 =
    let k = height_interval graph in
    let positive = interval_pos graph in
    let low : l.latency_min_msec / k ≤ l.latency_median_msec / k = div_mono positive h1 in
    let high : l.latency_median_msec / k ≤ l.latency_max_msec / k = div_mono positive h2 in
    let small : l.latency_max_msec / k ≤ l.latency_max_msec = div-le_self l.latency_max_msec k in
    let a : u32 (l.latency_min_msec / k + 1) ≡ l.latency_min_msec / k + 1 =
      mod-eq_of_lt (omega (arith, low, high, small)) in
    let b : u32 (l.latency_median_msec / k + 1) ≡ l.latency_median_msec / k + 1 =
      mod-eq_of_lt (omega (arith, low, high, small)) in
    let c : u32 (l.latency_max_msec / k + 1) ≡ l.latency_max_msec / k + 1 =
      mod-eq_of_lt (omega (arith, low, high, small)) in
    let stacked =
      apart-Stacked (l.latency_max_msec / k + 1) (l.latency_median_msec / k + 1)
        (l.latency_min_msec / k + 1) (omega (arith, low)) (omega (arith, high))
        (omega (arith, small)) in
    let marks = mark_lem _ j stacked in rw (a, b, c) (stacked, marks.0, marks.1, marks.2)
