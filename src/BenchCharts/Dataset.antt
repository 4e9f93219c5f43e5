-- ===== src/BenchCharts/Dataset.antt =====
-- The data set of internal/testutil/cmd/benchcharts/main.go and its `validate`.
use postgres_sqlguard.Common.{
  ℕ, Bool, true, false, not, ◌&&◌, ◌||◌, List, [], ◌∷◌, Option, none, some, GoString, ascii, str_eq,
  ltb, ◌==◌, ℤ, pos, negsuc, if◌then◌else◌,
}
use postgres_sqlguard.BenchCharts.Float.{Float64, positive_finite}

pub record Environment : Type 0 where
  pub host : GoString
  pub os : GoString
  pub architecture : GoString
  pub logical_cpus : ℤ
  pub go_version : GoString
  pub cgo_compiler : GoString

pub record BackendStrings : Type 0 where
  pub cgo : GoString
  pub no_cgo : GoString

pub record Methodology : Type 0 where
  pub run_count : ℤ
  pub benchtime : GoString
  pub commands : BackendStrings
  pub raw_results : BackendStrings
  pub rss_commands : BackendStrings
  pub size_commands : BackendStrings

pub record Units : Type 0 where
  pub latency : GoString
  pub allocated_bytes : GoString
  pub cold_rss : GoString
  pub binary_size : GoString

pub record BenchmarkMedian : Type 0 where
  pub latency : Float64
  pub allocated_bytes : Float64

pub record ComplexityCase : Type 0 where
  pub id : GoString
  pub label : GoString
  pub order : ℤ
  pub cgo : BenchmarkMedian
  pub no_cgo : BenchmarkMedian

pub record FootprintMedian : Type 0 where
  pub cold_rss : Float64
  pub binary_size : Float64

pub record Footprint : Type 0 where
  pub workload : GoString
  pub run_count : ℤ
  pub raw_results : BackendStrings
  pub cgo : FootprintMedian
  pub no_cgo : FootprintMedian

pub record Dataset : Type 0 where
  pub schema_version : ℤ
  pub measurement_date : GoString
  pub environment : Environment
  pub methodology : Methodology
  pub units : Units
  pub cases : List ComplexityCase
  pub footprint : Footprint

-- The errors of `validate`, one for each message.
pub data DatasetError : Type 0 where
  schema_version_not_one metadata_required few_runs commands_required raw_results_required :
      DatasetError
  latency_unit allocated_bytes_unit footprint_units no_cases case_fields_required : DatasetError
  order_not_unique id_not_unique footprint_measurements : DatasetError
  case_measurements : GoString → DatasetError

-- `s == ""`
abbrev pub is_empty : GoString → Bool
is_empty [] = true
is_empty (c ∷ s) = false

-- `x < n` and `x == n` of an int and a natural number.
abbrev pub int_lt : ℤ → ℕ → Bool
int_lt (pos m) n = ltb m n
int_lt (negsuc m) n = true

abbrev pub int_is : ℤ → ℕ → Bool
int_is (pos m) n = m == n
int_is (negsuc m) n = false

abbrev pub int_eq : ℤ → ℤ → Bool
int_eq (pos m) (pos n) = m == n
int_eq (negsuc m) (negsuc n) = m == n
int_eq _ _ = false

-- `complete`
unfoldable pub complete : BackendStrings → Bool
complete values = not (is_empty values.cgo) && not (is_empty values.no_cgo)

-- Keys of the maps `orders` and `ids`.
unfoldable pub has_order : List ℤ → ℤ → Bool
has_order [] order = false
has_order (seen ∷ orders) order = int_eq seen order || has_order orders order

unfoldable pub has_id : List GoString → GoString → Bool
has_id [] id = false
has_id (seen ∷ ids) id = str_eq seen id || has_id ids id

-- The measurements of a case.
unfoldable pub measured : ComplexityCase → Bool
measured c =
    positive_finite c.cgo.latency
    && positive_finite c.no_cgo.latency
    && positive_finite c.cgo.allocated_bytes
    && positive_finite c.no_cgo.allocated_bytes

-- The loop of `validate` over the cases, with the keys of its two maps.
unfoldable pub validate_cases : List ℤ → List GoString → List ComplexityCase → Option DatasetError
validate_cases orders ids [] = none
validate_cases orders ids (c ∷ cases) =
    let rest = validate_cases (c.order ∷ orders) (c.id ∷ ids) cases in
    if is_empty c.id || is_empty c.label || int_lt c.order 1
    then some case_fields_required
    else if has_order orders c.order
    then some order_not_unique
    else if has_id ids c.id
    then some id_not_unique
    else if not (measured c)
    then some (case_measurements c.id)
    else rest

-- The last check.
unfoldable pub validate_footprint : Footprint → Option DatasetError
validate_footprint f =
    if is_empty f.workload
      || not (positive_finite f.cgo.cold_rss)
      || not (positive_finite f.no_cgo.cold_rss)
      || not (positive_finite f.cgo.binary_size)
      || not (positive_finite f.no_cgo.binary_size)
    then some footprint_measurements
    else none

-- The checks before the loop.
unfoldable pub validate_header : Dataset → Option DatasetError
unfolding complete
validate_header input =
    if not (int_is input.schema_version 1)
    then some schema_version_not_one
    else if is_empty input.measurement_date
        || is_empty input.environment.host
        || is_empty input.environment.os
        || is_empty input.environment.architecture
        || int_lt input.environment.logical_cpus 1
        || is_empty input.environment.go_version
        || is_empty input.environment.cgo_compiler
    then some metadata_required
    else if int_lt input.methodology.run_count 5 || int_lt input.footprint.run_count 5
    then some few_runs
    else if is_empty input.methodology.benchtime
        || not (complete input.methodology.commands)
        || not (complete input.methodology.rss_commands)
        || not (complete input.methodology.size_commands)
    then some commands_required
    else if not (complete input.methodology.raw_results)
        || not (complete input.footprint.raw_results)
    then some raw_results_required
    else if not (str_eq input.units.latency (ascii "ns/op"))
    then some latency_unit
    else if not (str_eq input.units.allocated_bytes (ascii "B/op"))
    then some allocated_bytes_unit
    else if not (str_eq input.units.cold_rss (ascii "bytes"))
        || not (str_eq input.units.binary_size (ascii "bytes"))
    then some footprint_units
    else elim input.cases [ [] ↦ some no_cases | c ∷ cases ↦ none ]

-- `first` unless it is nil.
abbrev pub or_else : Option DatasetError → Option DatasetError → Option DatasetError
or_else (some err) next = some err
or_else none next = next

-- `validate`
unfoldable pub validate_dataset : Dataset → Option DatasetError
unfolding validate_header validate_cases validate_footprint
validate_dataset input =
    or_else (validate_header input)
      (or_else (validate_cases [] [] input.cases) (validate_footprint input.footprint))
