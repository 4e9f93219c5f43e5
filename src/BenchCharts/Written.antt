-- ===== src/BenchCharts/Written.antt =====
-- What `main` of internal/testutil/cmd/benchcharts/main.go reads and writes.
use postgres_sqlguard.Common.{
  ◌≡◌, true, ◌||◌, List, [], ◌∷◌, ◌++◌, map, none, some, GoString, ascii,
}
use postgres_sqlguard.Errors.{GoError}
use postgres_sqlguard.Runtime.{Outcome, returned, State}
use postgres_sqlguard.BenchCharts.Dataset.{Dataset, DatasetError, is_empty, validate_dataset}
use postgres_sqlguard.BenchCharts.Order.{compare_cases, sort_func}
use postgres_sqlguard.BenchCharts.Bars.{Drawing}
use postgres_sqlguard.BenchCharts.Render.{charts_of}
use postgres_sqlguard.BenchCharts.Main.{
  Platform, decodes, decode_error, FileCall, read, made, wrote, flags_required, read_failed,
  decode_failed, dataset_invalid, mkdir_failed, write_failed, Exit, finished, fatal, chart_at,
}

-- The names of the four charts, in their order.
abbrev pub names : List GoString
names =
    ascii "allocations.svg"
    ∷ ascii "binary-size.svg"
    ∷ ascii "cold-rss.svg"
    ∷ ascii "latency.svg"
    ∷ []

-- The four charts of a data set, by name.
abbrev pub files_of : Drawing → Dataset → List (GoString × GoString)
files_of draw d =
    map (λ name. (name, chart_at (charts_of draw d (sort_func compare_cases d.cases)) name)) names

-- A result that returns, with the calls made since a trace.
abbrev pub Ends :
    {W : Type 0}
    → (List FileCall → Exit → Type 0)
    → List FileCall
    → Outcome Exit × State W FileCall
    → Type 0
Ends R trace r =
    (calls : List FileCall) × (exit : Exit) × (r.0 ≡ returned exit)
    × (r.1.trace ≡ trace ++ calls)
    × R calls exit

module _ {W : Type 0} (os : Platform W) (draw : Drawing) (out_dir : GoString) where
  -- Files written one after the other from a state of the file system, up to the first that fails.
  pub data Writes : W → List (GoString × GoString) → List FileCall → Exit → Type 0 where
    all_written : {w : W} → Writes w [] [] finished
    failed :
        {w : W} {name chart : GoString} {files : List (GoString × GoString)} {err : GoError}
        → (os.write_file (os.join_path out_dir name) chart w).0 ≡ some err
        → Writes w
            ((name, chart) ∷ files)
            (wrote (os.join_path out_dir name) chart ∷ [])
            (fatal (write_failed name err))
    written :
        {w : W} {name chart : GoString} {files : List (GoString × GoString)} {calls : List FileCall}
        {exit : Exit}
        → (os.write_file (os.join_path out_dir name) chart w).0 ≡ none
        → Writes (os.write_file (os.join_path out_dir name) chart w).1 files calls exit
        → Writes w ((name, chart) ∷ files) (wrote (os.join_path out_dir name) chart ∷ calls) exit

  -- What `main` is to do from a state of the file system.
  pub data MainRun (data_path : GoString) (w : W) : List FileCall → Exit → Type 0 where
    no_flags :
        (is_empty data_path || is_empty out_dir) ≡ true
        → MainRun data_path w [] (fatal flags_required)
    unreadable :
        {err : GoError}
        → (os.read_file data_path w).0.1 ≡ some err
        → MainRun data_path w (read data_path ∷ []) (fatal (read_failed err))
    undecodable :
        {err : GoError}
        → (os.read_file data_path w).0.1 ≡ none
        → os.decode (os.read_file data_path w).0.0 ≡ decode_error err
        → MainRun data_path w (read data_path ∷ []) (fatal (decode_failed err))
    invalid :
        {d : Dataset} {err : DatasetError}
        → (os.read_file data_path w).0.1 ≡ none
        → os.decode (os.read_file data_path w).0.0 ≡ decodes d
        → validate_dataset d ≡ some err
        → MainRun data_path w (read data_path ∷ []) (fatal (dataset_invalid err))
    no_directory :
        {d : Dataset} {err : GoError}
        → (os.read_file data_path w).0.1 ≡ none
        → os.decode (os.read_file data_path w).0.0 ≡ decodes d
        → validate_dataset d ≡ none
        → (os.mkdir_all out_dir (os.read_file data_path w).1).0 ≡ some err
        → MainRun data_path w (read data_path ∷ made out_dir ∷ []) (fatal (mkdir_failed err))
    drawn :
        {d : Dataset} {calls : List FileCall} {exit : Exit}
        → (os.read_file data_path w).0.1 ≡ none
        → os.decode (os.read_file data_path w).0.0 ≡ decodes d
        → validate_dataset d ≡ none
        → (os.mkdir_all out_dir (os.read_file data_path w).1).0 ≡ none
        → Writes (os.mkdir_all out_dir (os.read_file data_path w).1).1 (files_of draw d) calls exit
        → MainRun data_path w (read data_path ∷ made out_dir ∷ calls) exit
