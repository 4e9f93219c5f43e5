-- ===== src/BenchCharts/Main.antt =====
-- `main` and `loadDataset` of internal/testutil/cmd/benchcharts/main.go, over the file system.
use postgres_sqlguard.Common.{
  Bool, true, false, ◌||◌, List, [], ◌∷◌, map, Option, none, some, GoString, str_eq, ltb, ◌==◌,
  if◌then◌else◌,
}
use postgres_sqlguard.Errors.{GoError}
use postgres_sqlguard.Runtime.{returned, Go, pure, ◌>>=◌, perform}
use postgres_sqlguard.BenchCharts.Dataset.{Dataset, DatasetError, is_empty, validate_dataset}
use postgres_sqlguard.BenchCharts.Bars.{Drawing}
use postgres_sqlguard.BenchCharts.Render.{Charts, rendered, rejected, render_charts}

-- The results of `Decode`: a data set or an error.
pub data DecodeResult : Type 0 where
  decodes : Dataset → DecodeResult
  decode_error : GoError → DecodeResult

-- The functions of `os`, `path/filepath` and `encoding/json` that are called. They return, with an
-- error or without one.
pub record Platform (W : Type 0) : Type 0 where
  pub read_file : GoString → W → (GoString × Option GoError) × W
  pub mkdir_all : GoString → W → Option GoError × W
  pub write_file : GoString → GoString → W → Option GoError × W
  pub join_path : GoString → GoString → GoString
  -- `Decode` with `DisallowUnknownFields`
  pub decode : GoString → DecodeResult

pub data FileCall : Type 0 where
  read : GoString → FileCall
  made : GoString → FileCall
  wrote : GoString → GoString → FileCall

-- The errors that `main` may end with, by `fatal`.
pub data MainError : Type 0 where
  flags_required : MainError
  read_failed : GoError → MainError
  decode_failed : GoError → MainError
  dataset_invalid : DatasetError → MainError
  mkdir_failed : GoError → MainError
  write_failed : GoString → GoError → MainError

-- How `main` ends: by its last line or by `fatal`, which exits.
pub data Exit : Type 0 where
  finished : Exit
  fatal : MainError → Exit

-- The results of `loadDataset`.
pub data Loaded : Type 0 where
  loaded : Dataset → Loaded
  not_loaded : MainError → Loaded

-- `a < b` on strings, byte by byte.
unfoldable pub str_ltb : GoString → GoString → Bool
str_ltb s [] = false
str_ltb [] (b ∷ t) = true
str_ltb (a ∷ s) (b ∷ t) = let rest = str_ltb s t in if a == b then rest else ltb a b

-- `slices.Sort`
unfoldable pub insert_name : GoString → List GoString → List GoString
insert_name name [] = name ∷ []
insert_name name (n ∷ names) =
    let rest = insert_name name names in if str_ltb n name then n ∷ rest else name ∷ n ∷ names

unfoldable pub sort_names : List GoString → List GoString
unfolding insert_name str_ltb
sort_names [] = []
sort_names (name ∷ names) = insert_name name (sort_names names)

-- `charts[name]`
unfoldable pub chart_at : List (GoString × GoString) → GoString → GoString
chart_at [] name = []
chart_at ((n, chart) ∷ charts) name = if str_eq n name then chart else chart_at charts name

-- `validate` of a decoded data set.
unfoldable pub checked : Dataset → Option DatasetError → Loaded
checked input (some err) = not_loaded (dataset_invalid err)
checked input none = loaded input

-- `loadDataset` after `ReadFile` and after `Decode`.
unfoldable pub decoded : DecodeResult → Loaded
unfolding checked
decoded (decode_error err) = not_loaded (decode_failed err)
decoded (decodes input) = checked input (validate_dataset input)

module _ {W : Type 0} (os : Platform W) (draw : Drawing) where
  abbrev pub system : {A : Type 0} → FileCall → (W → A × W) → Go W FileCall A
  system call action = perform call (λ w. let (a, w') = action w in (returned a, w'))

  unfoldable pub after_read : GoString × Option GoError → Loaded
  unfolding decoded
  after_read (contents, some err) = not_loaded (read_failed err)
  after_read (contents, none) = decoded (os.decode contents)

  -- `loadDataset`
  unfoldable pub load_dataset : GoString → Go W FileCall Loaded
  unfolding perform after_read
  load_dataset path = do result ← system (read path) (os.read_file path); pure (after_read result)

  -- The loop over the names.
  unfoldable pub write_charts :
      GoString → List (GoString × GoString) → List GoString → Go W FileCall Exit
  unfolding perform
  write_charts out_dir charts [] = pure finished
  write_charts out_dir charts (name ∷ names) = do
    err ←
        system (wrote (os.join_path out_dir name) (chart_at charts name))
          (os.write_file (os.join_path out_dir name) (chart_at charts name))
    elim err [
      | some x ↦ pure (fatal (write_failed name x))
      | none ↦ write_charts out_dir charts names
    ]

  unfoldable pub after_mkdir :
      GoString → List (GoString × GoString) → Option GoError → Go W FileCall Exit
  unfolding write_charts sort_names
  after_mkdir out_dir charts (some err) = pure (fatal (mkdir_failed err))
  after_mkdir out_dir charts none = write_charts out_dir charts (sort_names (map (λ p. p.0) charts))

  unfoldable pub after_render : GoString → Charts → Go W FileCall Exit
  unfolding after_mkdir perform
  after_render out_dir (rejected err) = pure (fatal (dataset_invalid err))
  after_render out_dir (rendered charts) = do
    err ← system (made out_dir) (os.mkdir_all out_dir)
    after_mkdir out_dir charts err

  unfoldable pub after_load : GoString → Loaded → Go W FileCall Exit
  unfolding after_render
  after_load out_dir (not_loaded err) = pure (fatal err)
  after_load out_dir (loaded input) = after_render out_dir (render_charts draw input)

  -- `main` after `flag.Parse`.
  unfoldable pub main : GoString → GoString → Go W FileCall Exit
  unfolding load_dataset after_load
  main data_path out_dir =
      if is_empty data_path || is_empty out_dir
      then pure (fatal flags_required)
      else load_dataset data_path >>= after_load out_dir
