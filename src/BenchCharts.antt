-- ===== src/BenchCharts.antt =====
-- internal/testutil/cmd/benchcharts/main.go: charts drawn from a data set of benchmarks.
pub mod Float
pub mod Dataset
pub mod Valid
pub mod Order
pub mod Reordered
pub mod Sorted
pub mod Bars
pub mod Render
pub mod Deterministic
pub mod Ordered
pub mod Main
pub mod Written
pub mod Files
pub mod Header
pub mod Checked
