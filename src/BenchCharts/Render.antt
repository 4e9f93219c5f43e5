-- ===== src/BenchCharts/Render.antt =====
-- `renderCharts` of internal/testutil/cmd/benchcharts/main.go.
use postgres_sqlguard.Common.{List, [], ◌∷◌, map, Option, none, some, GoString, ascii}
use postgres_sqlguard.BenchCharts.Float.{Float64}
use postgres_sqlguard.BenchCharts.Dataset.{ComplexityCase, Dataset, DatasetError, validate_dataset}
use postgres_sqlguard.BenchCharts.Order.{compare_cases, sort_func}
use postgres_sqlguard.BenchCharts.Bars.{
  ChartCase, Drawing, join, mebibyte, separator, render_grouped_bars,
}

module _ (draw : Drawing) where
  open draw use {floats}
  open floats use {div, of_int}

  -- The loops of `renderCharts` over the sorted cases.
  unfoldable pub latency_cases : List ComplexityCase → List ChartCase
  latency_cases cases =
      map (λ c. record { label = c.label; cgo = c.cgo.latency; no_cgo = c.no_cgo.latency }) cases

  unfoldable pub allocation_cases : List ComplexityCase → List ChartCase
  allocation_cases cases =
      map
        (λ c. record {
          label = c.label;
          cgo = c.cgo.allocated_bytes;
          no_cgo = c.no_cgo.allocated_bytes;
        })
        cases

  -- The map that `renderCharts` returns, by file name.
  unfoldable pub charts_of : Dataset → List ComplexityCase → List (GoString × GoString)
  unfolding render_grouped_bars latency_cases allocation_cases
  charts_of input cases =
      let host_line = join (
        input.measurement_date ∷ separator ∷ input.environment.host ∷ separator
        ∷ input.environment.go_version ∷ []) in
      let mib = λ (x : Float64). div x (of_int mebibyte) in
      let f = input.footprint in
      (
        ascii "latency.svg",
        render_grouped_bars draw (ascii "Direct validation latency")
            (ascii "Median execution time; lower is better") input.units.latency host_line
            (latency_cases cases) 1,
      )
      ∷ (
        ascii "allocations.svg",
        render_grouped_bars draw (ascii "Allocated memory")
            (ascii "Median heap bytes per validation; lower is better") input.units.allocated_bytes
            host_line (allocation_cases cases) 1,
      )
      ∷ (
        ascii "cold-rss.svg",
        render_grouped_bars draw (ascii "Cold-process maximum RSS")
            (ascii "Median of fixed size-probe executions; lower is better") (ascii "MiB") host_line
            (record { label = f.workload; cgo = mib f.cgo.cold_rss; no_cgo = mib f.no_cgo.cold_rss }
              ∷ [])
            1,
      )
      ∷ (
        ascii "binary-size.svg",
        render_grouped_bars draw (ascii "Stripped linked binary size")
            (ascii "Equivalent size-probe builds; lower is better") (ascii "MiB") host_line
            (record {
              label = f.workload;
              cgo = mib f.cgo.binary_size;
              no_cgo = mib f.no_cgo.binary_size;
            }
              ∷ [])
            2,
      )
      ∷ []

-- The results of `renderCharts`.
pub data Charts : Type 0 where
  rendered : List (GoString × GoString) → Charts
  rejected : DatasetError → Charts

-- `renderCharts` after its `validate`.
unfoldable pub render_checked : Drawing → Dataset → Option DatasetError → Charts
render_checked draw input (some err) = rejected err
render_checked draw input none =
    rendered (charts_of draw input (sort_func compare_cases input.cases))

-- `renderCharts`
unfoldable pub render_charts : Drawing → Dataset → Charts
unfolding render_checked
render_charts draw input = render_checked draw input (validate_dataset input)
