-- ===== src/BenchCharts/Deterministic.antt =====
-- The charts of internal/testutil/cmd/benchcharts/main.go as a function of what the data set holds.
use postgres_sqlguard.Common.{
  ◌<◌, ◌^◌, ◌≡◌, ◌≢◌, refl, sym, ap, ◌∙◌, subst, List, [], ◌∷◌, none, In, here, ℤ, pos, negsuc,
}
use mathlib.Core.List.{Permᴰ}
use postgres_sqlguard.BenchCharts.Dataset.{ComplexityCase, Dataset, validate_dataset}
use postgres_sqlguard.BenchCharts.Valid.{AtLeast}
use postgres_sqlguard.BenchCharts.Header.{HasHeader}
use postgres_sqlguard.BenchCharts.Checked.{IsDataset, validate_dataset_iff}
use postgres_sqlguard.BenchCharts.Order.{compare_cases, sort_func, IsOrder, rank}
use postgres_sqlguard.BenchCharts.Reordered.{AllOrders, Permᴰ-In, Permᴰ-In_back, Permᴰ-Distinct}
use postgres_sqlguard.BenchCharts.Sorted.{sort_func-Permᴰ}
use postgres_sqlguard.BenchCharts.Bars.{Drawing}
use postgres_sqlguard.BenchCharts.Render.{rendered, charts_of, render_checked, render_charts}

-- The orders are Go ints of 64 bits.
abbrev pub FitInt : List ComplexityCase → Type 0
FitInt cases = (c : ComplexityCase) → In c cases → rank c.order < 2 ^ 63

AtLeast-IsOrder : (z : ℤ) → AtLeast 1 z → rank z < 2 ^ 63 → IsOrder z
AtLeast-IsOrder (pos n) h fits = (h, fits)
AtLeast-IsOrder (negsuc n) h fits = h

pub IsDataset-AllOrders : (d : Dataset) → IsDataset d → FitInt d.cases → AllOrders d.cases
IsDataset-AllOrders d v fits c at = AtLeast-IsOrder c.order (v.each c at).order (fits c at)

not_empty : {l l' : List ComplexityCase} → Permᴰ l l' → l ≢ [] → l' ≢ []
not_empty {l = []} p h e = h refl
not_empty {l = c ∷ l} p h e =
    let absent : In c [] = subst (In c) e (Permᴰ-In_back p (here refl)) in elim absent [ ]

module _ (d : Dataset) (cases : List ComplexityCase) (p : Permᴰ d.cases cases) where
  abbrev reordered : Dataset
  reordered = record d { cases = cases }

  reordered-HasHeader : HasHeader d → HasHeader reordered
  reordered-HasHeader h = record {
    schema_version = h.schema_version;
    measurement_date = h.measurement_date;
    host = h.host;
    os = h.os;
    architecture = h.architecture;
    logical_cpus = h.logical_cpus;
    go_version = h.go_version;
    cgo_compiler = h.cgo_compiler;
    runs = h.runs;
    footprint_runs = h.footprint_runs;
    benchtime = h.benchtime;
    commands = h.commands;
    rss_commands = h.rss_commands;
    size_commands = h.size_commands;
    raw_results = h.raw_results;
    footprint_results = h.footprint_results;
    latency = h.latency;
    allocated_bytes = h.allocated_bytes;
    cold_rss = h.cold_rss;
    binary_size = h.binary_size;
    some_case = not_empty p h.some_case;
  }

  reordered-IsDataset : IsDataset d → IsDataset reordered
  reordered-IsDataset v = record {
    header = reordered-HasHeader v.header;
    each = λ c at. v.each c (Permᴰ-In p at);
    distinct = Permᴰ-Distinct p v.distinct;
    footprint = v.footprint;
  }

module _ (draw : Drawing) where
  pub render_charts-rendered :
      (d : Dataset)
      → validate_dataset d ≡ none
      → render_charts draw d ≡ rendered (charts_of draw d (sort_func compare_cases d.cases))
  unfolding render_charts render_checked
  render_charts-rendered d h = ap (render_checked draw d) h

  -- Nothing is drawn from the list of cases itself.
  charts_of-cases :
      (d : Dataset) (cases l : List ComplexityCase)
      → charts_of draw (record d { cases = cases }) l ≡ charts_of draw d l
  unfolding charts_of
  charts_of-cases d cases l = refl

  -- The charts of a valid data set do not depend on the order in which its cases stand: with the
  -- same cases in any other order, the data set is valid too and every file comes out the same, byte for byte.
  pub render_charts-Permᴰ :
      (d : Dataset) (cases : List ComplexityCase)
      → Permᴰ d.cases cases
      → FitInt d.cases
      → validate_dataset d ≡ none
      → (validate_dataset (record d { cases = cases }) ≡ none)
        × (render_charts draw (record d { cases = cases }) ≡ render_charts draw d)
  render_charts-Permᴰ d cases p fits h =
      let v = (validate_dataset_iff d).0 h in
      let h' =
        (validate_dataset_iff (record d { cases = cases })).1 (reordered-IsDataset d cases p v) in
      let same = sort_func-Permᴰ p (IsDataset-AllOrders d v fits) v.distinct in
      (
        h',
        render_charts-rendered (record d { cases = cases }) h'
            ∙ ap rendered (
                charts_of-cases d cases (sort_func compare_cases cases)
                ∙ ap (charts_of draw d) (sym same))
            ∙ sym (render_charts-rendered d h),
      )
