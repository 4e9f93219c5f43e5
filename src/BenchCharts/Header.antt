-- ===== src/BenchCharts/Header.antt =====
-- The checks of a data set before its cases, in internal/testutil/cmd/benchcharts/main.go.
use postgres_sqlguard.Common.{
  ℕ, ◌≡◌, ◌≢◌, ◌↔◌, arith, true, false, [], none, ascii, str_eq, str_eq_iff, ℤ, pos, negsuc,
}
use postgres_sqlguard.BenchCharts.Dataset.{
  BackendStrings, Dataset, is_empty, int_lt, int_is, complete, validate_header,
}
use postgres_sqlguard.BenchCharts.Valid.{AtLeast, IsComplete, is_empty-false, int_lt-false}

-- The part of a data set that does not speak of its cases.
pub record HasHeader (d : Dataset) : Type 0 where
  pub schema_version : d.schema_version ≡ pos 1
  pub measurement_date : d.measurement_date ≢ []
  pub host : d.environment.host ≢ []
  pub os : d.environment.os ≢ []
  pub architecture : d.environment.architecture ≢ []
  pub logical_cpus : AtLeast 1 d.environment.logical_cpus
  pub go_version : d.environment.go_version ≢ []
  pub cgo_compiler : d.environment.cgo_compiler ≢ []
  pub runs : AtLeast 5 d.methodology.run_count
  pub footprint_runs : AtLeast 5 d.footprint.run_count
  pub benchtime : d.methodology.benchtime ≢ []
  pub commands : IsComplete d.methodology.commands
  pub rss_commands : IsComplete d.methodology.rss_commands
  pub size_commands : IsComplete d.methodology.size_commands
  pub raw_results : IsComplete d.methodology.raw_results
  pub footprint_results : IsComplete d.footprint.raw_results
  pub latency : d.units.latency ≡ ascii "ns/op"
  pub allocated_bytes : d.units.allocated_bytes ≡ ascii "B/op"
  pub cold_rss : d.units.cold_rss ≡ ascii "bytes"
  pub binary_size : d.units.binary_size ≡ ascii "bytes"
  pub some_case : d.cases ≢ []

int_is_iff : (z : ℤ) (n : ℕ) → (int_is z n ≡ true) ↔ (z ≡ pos n)
int_is_iff (pos m) n = (λ h. ground arith, λ h. ground arith)
int_is_iff (negsuc m) n = (λ h. absurd (cc), λ h. absurd (cc))

complete_iff : (b : BackendStrings) → (complete b ≡ true) ↔ IsComplete b
unfolding complete
complete_iff b = (
  λ h. ((is_empty-false b.cgo).0 (ground arith), (is_empty-false b.no_cgo).0 (ground arith)),
  λ h. ground (arith, (is_empty-false b.cgo).1 h.0, (is_empty-false b.no_cgo).1 h.1),
)

module _ (d : Dataset) where
  -- The tests of `validate_header`, as they come out for an accepted data set.
  abbrev Tests : Type 0
  Tests =
      (int_is d.schema_version 1 ≡ true)
      × (is_empty d.measurement_date ≡ false)
      × (is_empty d.environment.host ≡ false)
      × (is_empty d.environment.os ≡ false)
      × (is_empty d.environment.architecture ≡ false)
      × (int_lt d.environment.logical_cpus 1 ≡ false)
      × (is_empty d.environment.go_version ≡ false)
      × (is_empty d.environment.cgo_compiler ≡ false)
      × (int_lt d.methodology.run_count 5 ≡ false)
      × (int_lt d.footprint.run_count 5 ≡ false)
      × (is_empty d.methodology.benchtime ≡ false)
      × (complete d.methodology.commands ≡ true)
      × (complete d.methodology.rss_commands ≡ true)
      × (complete d.methodology.size_commands ≡ true)
      × (complete d.methodology.raw_results ≡ true)
      × (complete d.footprint.raw_results ≡ true)
      × (str_eq d.units.latency (ascii "ns/op") ≡ true)
      × (str_eq d.units.allocated_bytes (ascii "B/op") ≡ true)
      × (str_eq d.units.cold_rss (ascii "bytes") ≡ true)
      × (str_eq d.units.binary_size (ascii "bytes") ≡ true)
      × (d.cases ≢ [])

  Tests-none : validate_header d ≡ none → Tests
  unfolding validate_header
  Tests-none h = (
    ground arith,
    ground arith,
    ground arith,
    ground arith,
    ground arith,
    ground arith,
    ground arith,
    ground arith,
    ground arith,
    ground arith,
    ground arith,
    ground arith,
    ground arith,
    ground arith,
    ground arith,
    ground arith,
    ground arith,
    ground arith,
    ground arith,
    ground arith,
    λ e. ground arith,
  )

  none-Tests : Tests → validate_header d ≡ none
  unfolding validate_header
  none-Tests t = ground arith

  pub header_iff : (validate_header d ≡ none) ↔ HasHeader d
  header_iff = (
    λ h.
        let (
          schema, date, host, os, arch, cpus, go, compiler, runs, footprint_runs, bench, commands,
          rss, size, raw, footprint_raw, lat, bytes, cold, binary, cases,
        ) =
          Tests-none h in
        record {
          schema_version = (int_is_iff d.schema_version 1).0 schema;
          measurement_date = (is_empty-false _).0 date;
          host = (is_empty-false _).0 host;
          os = (is_empty-false _).0 os;
          architecture = (is_empty-false _).0 arch;
          logical_cpus = (int_lt-false _ 1).0 cpus;
          go_version = (is_empty-false _).0 go;
          cgo_compiler = (is_empty-false _).0 compiler;
          runs = (int_lt-false _ 5).0 runs;
          footprint_runs = (int_lt-false _ 5).0 footprint_runs;
          benchtime = (is_empty-false _).0 bench;
          commands = (complete_iff _).0 commands;
          rss_commands = (complete_iff _).0 rss;
          size_commands = (complete_iff _).0 size;
          raw_results = (complete_iff _).0 raw;
          footprint_results = (complete_iff _).0 footprint_raw;
          latency = (str_eq_iff _ _).0 lat;
          allocated_bytes = (str_eq_iff _ _).0 bytes;
          cold_rss = (str_eq_iff _ _).0 cold;
          binary_size = (str_eq_iff _ _).0 binary;
          some_case = cases;
        },
    λ v. none-Tests (
      (int_is_iff d.schema_version 1).1 v.schema_version,
      (is_empty-false _).1 v.measurement_date,
      (is_empty-false _).1 v.host,
      (is_empty-false _).1 v.os,
      (is_empty-false _).1 v.architecture,
      (int_lt-false _ 1).1 v.logical_cpus,
      (is_empty-false _).1 v.go_version,
      (is_empty-false _).1 v.cgo_compiler,
      (int_lt-false _ 5).1 v.runs,
      (int_lt-false _ 5).1 v.footprint_runs,
      (is_empty-false _).1 v.benchtime,
      (complete_iff _).1 v.commands,
      (complete_iff _).1 v.rss_commands,
      (complete_iff _).1 v.size_commands,
      (complete_iff _).1 v.raw_results,
      (complete_iff _).1 v.footprint_results,
      (str_eq_iff _ _).1 v.latency,
      (str_eq_iff _ _).1 v.allocated_bytes,
      (str_eq_iff _ _).1 v.cold_rss,
      (str_eq_iff _ _).1 v.binary_size,
      v.some_case,
    ),
  )
