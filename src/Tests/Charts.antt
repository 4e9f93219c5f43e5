-- ===== src/Tests/Charts.antt =====
-- The chart generator on a data set of two cases, and a file system that holds one file.
use postgres_sqlguard.Common.{
  ℕ, ◌≡◌, ◌↔◌, refl, List, [], ◌∷◌, none, GoString, ascii, str_eq, here, there, pos, ◌+◌, ◌++◌, ltb,
  arith, if◌then◌else◌,
}
use mathlib.Core.List.{Permᴰ}
use postgres_sqlguard.Runtime.{State}
use postgres_sqlguard.BenchCharts.Float.{Float64, is_nan, is_inf, gt_zero, positive_finite}
use postgres_sqlguard.BenchCharts.Dataset.{
  BackendStrings, BenchmarkMedian, ComplexityCase, Dataset, validate_dataset, validate_header,
  validate_cases, validate_footprint, complete, has_order, has_id, measured,
}
use postgres_sqlguard.BenchCharts.Checked.{IsDataset, validate_dataset_iff}
use postgres_sqlguard.BenchCharts.Order.{compare_cases, difference, rank, compare_cases-difference}
use postgres_sqlguard.BenchCharts.Bars.{Drawing}
use postgres_sqlguard.BenchCharts.Render.{render_charts, rendered}
use postgres_sqlguard.BenchCharts.Ordered.{Drawn, render_charts-Drawn}
use postgres_sqlguard.Errors.{errors_new}
use postgres_sqlguard.BenchCharts.Deterministic.{render_charts-Permᴰ, FitInt}
use postgres_sqlguard.BenchCharts.Main.{Platform, decodes, decode_error, FileCall}

-- 1.0 and 2.0
abbrev one : Float64
one = 0x3ff0000000000000

abbrev two : Float64
two = 0x4000000000000000

abbrev both : BackendStrings
both = record { cgo = ascii "a"; no_cgo = ascii "b" }

abbrev medians : BenchmarkMedian
medians = record { latency = two; allocated_bytes = one }

abbrev late : ComplexityCase
late = record {
  id = ascii "late";
  label = ascii "Late";
  order = pos 2;
  cgo = medians;
  no_cgo = medians;
}

abbrev early : ComplexityCase
early = record {
  id = ascii "early";
  label = ascii "Early";
  order = pos 1;
  cgo = medians;
  no_cgo = medians;
}

compare_cases-difference_example :
    compare_cases early late ≡ difference (rank early.order) (rank late.order)
compare_cases-difference_example =
    compare_cases-difference early late (omega arith, omega arith) (omega arith, omega arith)

abbrev sample : Dataset
sample = record {
  schema_version = pos 1;
  measurement_date = ascii "2026-01-01";
  environment = record {
    host = ascii "host";
    os = ascii "linux";
    architecture = ascii "amd64";
    logical_cpus = pos 8;
    go_version = ascii "go1.25";
    cgo_compiler = ascii "gcc";
  };
  methodology = record {
    run_count = pos 5;
    benchtime = ascii "1s";
    commands = both;
    raw_results = both;
    rss_commands = both;
    size_commands = both;
  };
  units = record {
    latency = ascii "ns/op";
    allocated_bytes = ascii "B/op";
    cold_rss = ascii "bytes";
    binary_size = ascii "bytes";
  };
  cases = late ∷ early ∷ [];
  footprint = record {
    workload = ascii "probe";
    run_count = pos 5;
    raw_results = both;
    cgo = record { cold_rss = one; binary_size = two };
    no_cgo = record { cold_rss = two; binary_size = one };
  };
}

accepted : validate_dataset sample ≡ none
unfolding validate_dataset validate_header validate_cases validate_footprint complete has_order
    has_id measured positive_finite gt_zero is_inf is_nan ascii str_eq
accepted = refl

validate_dataset_iff_example : (validate_dataset sample ≡ none) ↔ IsDataset sample
validate_dataset_iff_example = validate_dataset_iff sample

-- Draws nothing but text.
abbrev plain_draw : Drawing
plain_draw = record {
  floats = record {
    add = λ x y. x;
    sub = λ x y. x;
    mul = λ x y. x;
    div = λ x y. x;
    max = λ x y. if ltb x y then y else x;
    min = λ x y. if ltb x y then x else y;
    of_int = λ n. one;
    fixed = λ digits x. ascii "1.0";
  };
  escape_text = λ s. s;
}

swapped : Permᴰ (late ∷ early ∷ []) (early ∷ late ∷ [])
swapped = Permᴰ.swap refl refl

fits : FitInt sample.cases
fits c (here e) = rw e (omega arith)
fits c (there (here e)) = rw e (omega arith)
fits c (there (there e)) = elim e [ ]

render_charts-Permᴰ_example :
    (validate_dataset (record sample { cases = early ∷ late ∷ [] }) ≡ none)
    × (render_charts plain_draw (record sample { cases = early ∷ late ∷ [] })
        ≡ render_charts plain_draw sample)
render_charts-Permᴰ_example =
    render_charts-Permᴰ plain_draw sample (early ∷ late ∷ []) swapped fits accepted

render_charts-Drawn_example :
    (charts : List (GoString × GoString)) × (render_charts plain_draw sample ≡ rendered charts)
    × Drawn plain_draw sample charts
render_charts-Drawn_example = render_charts-Drawn plain_draw sample fits accepted

-- A file system of one file; its state counts the calls that write.
abbrev disk : Platform ℕ
disk = record {
  read_file = λ path w. ((path, none), w);
  mkdir_all = λ path w. (none, w + 1);
  write_file = λ path contents w. (none, w + 1);
  join_path = λ dir name. dir ++ ascii "/" ++ name;
  decode = λ contents.
      if str_eq contents (ascii "dataset.json")
      then decodes sample
      else decode_error (errors_new contents);
}

abbrev untouched : State ℕ FileCall
untouched = record { world = 0; trace = [] }
