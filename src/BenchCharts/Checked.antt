-- ===== src/BenchCharts/Checked.antt =====
-- `validate` of internal/testutil/cmd/benchcharts/main.go against what a data set is to hold.
use postgres_sqlguard.Common.{◌≡◌, ◌≢◌, ◌↔◌, arith, true, [], none, In}
use postgres_sqlguard.BenchCharts.Float.{positive_finite}
use postgres_sqlguard.BenchCharts.Dataset.{
  ComplexityCase, Footprint, Dataset, validate_cases, validate_footprint, validate_header,
  validate_dataset,
}
use postgres_sqlguard.BenchCharts.Valid.{
  IsCase, Distinct, is_empty-false, validate_cases-Accepts, Accepts-validate_cases,
}
use postgres_sqlguard.BenchCharts.Header.{HasHeader, header_iff}

pub record IsFootprint (f : Footprint) : Type 0 where
  pub workload : f.workload ≢ []
  pub cgo_cold_rss : positive_finite f.cgo.cold_rss ≡ true
  pub no_cgo_cold_rss : positive_finite f.no_cgo.cold_rss ≡ true
  pub cgo_binary_size : positive_finite f.cgo.binary_size ≡ true
  pub no_cgo_binary_size : positive_finite f.no_cgo.binary_size ≡ true

-- A data set that charts may be drawn from.
pub record IsDataset (d : Dataset) : Type 0 where
  pub header : HasHeader d
  pub each : (c : ComplexityCase) → In c d.cases → IsCase c
  pub distinct : Distinct d.cases
  pub footprint : IsFootprint d.footprint

footprint_iff : (f : Footprint) → (validate_footprint f ≡ none) ↔ IsFootprint f
unfolding validate_footprint
footprint_iff f = (
  λ h. record {
    workload = (is_empty-false f.workload).0 (ground arith);
    cgo_cold_rss = ground arith;
    no_cgo_cold_rss = ground arith;
    cgo_binary_size = ground arith;
    no_cgo_binary_size = ground arith;
  },
  λ v. ground (arith, (is_empty-false f.workload).1 v.workload),
)

module _ (d : Dataset) where
  -- The checks one after the other.
  parts_iff : (validate_dataset d ≡ none) ↔ (
      (validate_header d ≡ none)
      × (validate_cases [] [] d.cases ≡ none)
      × (validate_footprint d.footprint ≡ none))
  unfolding validate_dataset
  parts_iff = (λ h. (ground arith, ground arith, ground arith), λ h. ground arith)

  -- `validate` accepts a data set exactly when its schema version is 1, its metadata and commands
  -- are present for both backends, its runs are 5 or more, its units are the expected ones, and it has a
  -- case; when each case has an identifier, a label, an order of 1 or more and positive finite measurements; when no two cases
  -- share an order or an identifier; and when the footprint has a workload and positive finite measurements.
  pub validate_dataset_iff : (validate_dataset d ≡ none) ↔ IsDataset d
  validate_dataset_iff = (
    λ h.
        let (header, cases, footprint) = parts_iff.0 h in
        let accepts = validate_cases-Accepts [] [] d.cases cases in
        record {
          header = (header_iff d).0 header;
          each = accepts.each;
          distinct = accepts.distinct;
          footprint = (footprint_iff d.footprint).0 footprint;
        },
    λ v. parts_iff.1 (
      (header_iff d).1 v.header,
      Accepts-validate_cases [] [] d.cases (record {
        each = v.each;
        new_order = λ c at seen. elim seen [ ];
        new_id = λ c at seen. elim seen [ ];
        distinct = v.distinct;
      }),
      (footprint_iff d.footprint).1 v.footprint,
    ),
  )
