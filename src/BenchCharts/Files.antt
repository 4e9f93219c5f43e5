-- ===== src/BenchCharts/Files.antt =====
-- `main` of internal/testutil/cmd/benchcharts/main.go against what it is to read and write.
use postgres_sqlguard.Common.{GoString}
use postgres_sqlguard.BenchCharts.Dataset.{Dataset}
use postgres_sqlguard.BenchCharts.Bars.{Drawing}
use postgres_sqlguard.BenchCharts.Main.{Platform}

module _ {W : Type 0} (os : Platform W) (draw : Drawing) (out_dir : GoString) where
  -- The file system after the data set is read.
  abbrev read_world : GoString → W → W
  read_world data_path w = (os.read_file data_path w).1
