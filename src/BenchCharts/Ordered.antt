-- ===== src/BenchCharts/Ordered.antt =====
-- The order of the bars in the charts of internal/testutil/cmd/benchcharts/main.go.
use postgres_sqlguard.Common.{◌≡◌, refl, List, [], ◌∷◌, map, none, GoString, ascii, In, here, there}
use mathlib.Core.List.{Permᴰ}
use postgres_sqlguard.BenchCharts.Dataset.{ComplexityCase, Dataset, validate_dataset}
use postgres_sqlguard.BenchCharts.Checked.{validate_dataset_iff}
use postgres_sqlguard.BenchCharts.Order.{compare_cases, sort_func}
use postgres_sqlguard.BenchCharts.Sorted.{Ascending, sort_func-Ascending, Permᴰ-sort_func}
use postgres_sqlguard.BenchCharts.Bars.{ChartCase, Drawing, join, separator, render_grouped_bars}
use postgres_sqlguard.BenchCharts.Render.{
  latency_cases, allocation_cases, rendered, charts_of, render_charts,
}
use postgres_sqlguard.BenchCharts.Deterministic.{
  render_charts-rendered, FitInt, IsDataset-AllOrders,
}

-- A group of bars for each case, in the same order.
pub data Shows (R : ComplexityCase → ChartCase → Type 0)
    : List ComplexityCase → List ChartCase → Type 0 where
  no_case : Shows R [] []
  next_case :
      {c : ComplexityCase} {bars : ChartCase} {cases : List ComplexityCase} {rest : List ChartCase}
      → R c bars
      → Shows R cases rest
      → Shows R (c ∷ cases) (bars ∷ rest)

-- The bars of a case in the two charts that show the cases.
pub record IsLatency (c : ComplexityCase) (bars : ChartCase) : Type 0 where
  pub label : bars.label ≡ c.label
  pub cgo : bars.cgo ≡ c.cgo.latency
  pub no_cgo : bars.no_cgo ≡ c.no_cgo.latency

pub record IsAllocation (c : ComplexityCase) (bars : ChartCase) : Type 0 where
  pub label : bars.label ≡ c.label
  pub cgo : bars.cgo ≡ c.cgo.allocated_bytes
  pub no_cgo : bars.no_cgo ≡ c.no_cgo.allocated_bytes

map-Shows :
    {R : ComplexityCase → ChartCase → Type 0} (f : ComplexityCase → ChartCase)
    → ((c : ComplexityCase) → R c (f c))
    → (cases : List ComplexityCase) → Shows R cases (map f cases)
map-Shows f h [] = no_case
map-Shows f h (c ∷ cases) = next_case (h c) (map-Shows f h cases)

module _ (draw : Drawing) where
  latency_cases-Shows :
      (cases : List ComplexityCase) → Shows IsLatency cases (latency_cases draw cases)
  unfolding latency_cases
  latency_cases-Shows = map-Shows _ (λ c. record { label = refl; cgo = refl; no_cgo = refl })

  allocation_cases-Shows :
      (cases : List ComplexityCase) → Shows IsAllocation cases (allocation_cases draw cases)
  unfolding allocation_cases
  allocation_cases-Shows = map-Shows _ (λ c. record { label = refl; cgo = refl; no_cgo = refl })

  -- The line under a title.
  abbrev pub host_line : Dataset → GoString
  host_line d = join (
      d.measurement_date ∷ separator ∷ d.environment.host ∷ separator ∷ d.environment.go_version
      ∷ [])

  -- The cases in order, with the bars that the two charts are drawn from.
  pub record Drawn (d : Dataset) (charts : List (GoString × GoString)) : Type 0 where
    pub cases : List ComplexityCase
    pub ascending : Ascending cases
    pub same_cases : Permᴰ d.cases cases
    pub latencies : List ChartCase
    pub shows_latencies : Shows IsLatency cases latencies
    pub latency :
        In
          (
            ascii "latency.svg",
            render_grouped_bars draw
                (ascii "Direct validation latency")
                (ascii "Median execution time; lower is better")
                d.units.latency
                (host_line d)
                latencies
                1,
          )
          charts
    pub allocations : List ChartCase
    pub shows_allocations : Shows IsAllocation cases allocations
    pub allocation :
        In
          (
            ascii "allocations.svg",
            render_grouped_bars draw
                (ascii "Allocated memory")
                (ascii "Median heap bytes per validation; lower is better")
                d.units.allocated_bytes
                (host_line d)
                allocations
                1,
          )
          charts

  charts_of-Drawn :
      (d : Dataset) (cases : List ComplexityCase)
      → Ascending cases
      → Permᴰ d.cases cases
      → Drawn d (charts_of draw d cases)
  unfolding charts_of
  charts_of-Drawn d cases ascending same = record {
    cases = cases;
    ascending = ascending;
    same_cases = same;
    latencies = latency_cases draw cases;
    shows_latencies = latency_cases-Shows cases;
    latency = here refl;
    allocations = allocation_cases draw cases;
    shows_allocations = allocation_cases-Shows cases;
    allocation = there (here refl);
  }

  -- A valid data set, its orders being Go ints of 64 bits, is rendered, and the charts named
  -- latency.svg and allocations.svg are each drawn from one group of bars for each of its cases, in
  -- strictly ascending order of their `Order`: a group has the label of its case and, with CGO and without,
  -- its latencies in the first chart and its allocated bytes in the second.
  pub render_charts-Drawn :
      (d : Dataset)
      → FitInt d.cases
      → validate_dataset d ≡ none
      → (charts : List (GoString × GoString)) × (render_charts draw d ≡ rendered charts)
        × Drawn d charts
  render_charts-Drawn d fits h =
      let v = (validate_dataset_iff d).0 h in
      (
        charts_of draw d (sort_func compare_cases d.cases),
        render_charts-rendered draw d h,
        charts_of-Drawn d (sort_func compare_cases d.cases)
            (sort_func-Ascending d.cases (IsDataset-AllOrders d v fits) v.distinct)
            (Permᴰ-sort_func d.cases),
      )
