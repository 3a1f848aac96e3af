-- ===== src/Cli/Graph.antt =====
-- `print_latency` of cli/cli.c: a graph of thirty lines with a column for each bucket.
use diskscan.Base.{
  ℕ, zero, suc, ◌+◌, ◌*◌, ◌/◌, ◌%◌, not, ◌&&◌, List, [], ◌∷◌, ◌++◌, length, map, replicate, ltb,
  ◌==◌, if◌then◌else◌, u32, codes,
}
use diskscan.Scan.Types.{Latency}

unfoldable pub graph_max : ℕ → List Latency → ℕ
graph_max max_val [] = max_val
graph_max max_val (l ∷ ls) =
    graph_max (if ltb max_val l.latency_max_msec then l.latency_max_msec else max_val) ls

-- The milliseconds of a line.
unfoldable pub height_interval : List Latency → ℕ
height_interval latency_graph =
    let interval = u32 (graph_max 1 latency_graph + 1) / 27 in
    if interval == 0 then 1 else if ltb 10000 interval then 10000 else interval

-- The lines of the three marks of a column.
pub record Heights : Type 0 where
  pub max_height : ℕ
  pub med_height : ℕ
  pub min_height : ℕ

-- The marks moved apart, from the lines as they are computed.
unfoldable pub apart : ℕ → ℕ → ℕ → Heights
apart max0 med0 min0 =
    let max1 = if max0 == med0 then u32 (max0 + 1) else max0 in
    let med1 = if med0 == min0 then u32 (med0 + 1) else med0 in
    record {
      max_height = if med0 == min0 && max1 == med1 then u32 (max1 + 1) else max1;
      med_height = med1;
      min_height = min0;
    }

unfoldable pub heights : ℕ → Latency → Heights
heights interval l =
    apart (u32 (l.latency_max_msec / interval + 1)) (u32 (l.latency_median_msec / interval + 1))
      (u32 (l.latency_min_msec / interval + 1))

-- The character of a column in line j: a space, `^`, `*` or `_`.
unfoldable pub mark : Heights → ℕ → ℕ
mark h j =
    if not (h.max_height == j) && (not (h.med_height == j) && not (h.min_height == j))
    then 32
    else if h.max_height == j
    then 94
    else if h.med_height == j
    then 42
    else 95

module _ (dec : ℕ → ℕ → List ℕ) where
  unfoldable pub graph_line : ℕ → List Latency → ℕ → List ℕ
  graph_line interval latency_graph j =
      (if j % 5 == 0 then dec 5 (j * interval) ++ codes " | " else codes "      | ")
      ++ map (λ l. mark (heights interval l) j) latency_graph
      ++ codes "\n"

  -- The lines from j down.
  unfoldable pub graph_lines : ℕ → List Latency → ℕ → List ℕ
  graph_lines interval latency_graph zero = []
  graph_lines interval latency_graph (suc j) =
      graph_line interval latency_graph (suc j) ++ graph_lines interval latency_graph j

  unfoldable pub print_latency : List Latency → List ℕ
  print_latency latency_graph =
      graph_lines (height_interval latency_graph) latency_graph 30
      ++ codes "      +-"
      ++ replicate (length latency_graph) 45
      ++ codes "\n"
