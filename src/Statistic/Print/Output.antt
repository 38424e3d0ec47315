-- ===== src/Statistic/Print/Output.antt =====
-- `Statistic::print` of src/util/statistic.rs with its three formats. The crates serde_json and csv, the
-- paths and the file system are a parameter; the file of the results is the list of its rows.
use Prim.Native.String.{String}
use package.text.Mathlib.Text.{◌==◌ as str_eq}
use nperf.Base.{
  Bool, ◌&&◌, ◌||◌, List, [], ◌∷◌, ◌++◌, Option, none, some, if◌then◌else◌, Outcome, ok, fault,
  panicked,
}
use nperf.Config.{OutputFormat, text, json, file}
use nperf.Config.Floats.{Floats}
use nperf.Statistic.{Statistic, calculate_statistics}
use nperf.Statistic.Print.{Line, words, print_text}

-- A row of the file: that of the names, or that of a statistic.
pub data Row : Type 0 where
  header : Row
  values : Statistic → Row

-- The directories that are there, and the rows of each file.
pub record Disk : Type 0 where
  pub is_there : String → Bool
  pub rows : String → List Row

-- `set_extension` and `parent` of the standard library's paths, the text that serde_json makes; and which
-- calls are a success: creating a directory, opening a file, reading its size, writing a row and
-- flushing it.
pub record World : Type 0 where
  pub set_extension : String → String → String
  pub parent : String → Option String
  pub to_json : Statistic → Option String
  pub creates : String → Bool
  pub opens : String → Bool
  pub sizes : String → Bool
  pub writes : Statistic → Bool

-- What was printed, whether the thread goes on, and the disk.
pub record Output : Type 0 where
  pub lines : List Line
  pub result : Outcome (Unit {0})
  pub disk : Disk

-- The rows that are written for a statistic: with the names in an empty file.
unfoldable pub appended : Statistic → List Row → List Row
appended s [] = header ∷ values s ∷ []
appended s (r ∷ rs) = r ∷ rs ++ (values s ∷ [])

module _ (w : World) where
  abbrev pub silent : Outcome (Unit {0}) → Disk → Output
  silent o d = record { lines = []; result = o; disk = d }

  -- A file that cannot be opened is an error that is logged; the rest panics. What a failed write leaves in
  -- the file is not modelled.
  unfoldable pub append_row : String → Statistic → Disk → Output
  unfolding appended
  append_row path s d =
      if w.opens path
      then (if w.sizes path && w.writes s
          then silent (ok tt)
              (record d { rows = λ q. if str_eq q path then appended s (d.rows q) else d.rows q })
          else silent (fault panicked) d)
      else silent (ok tt) d

  -- `if let Some(parent_dir) = …`: without its directory, and where that cannot be created, nothing is
  -- written.
  unfoldable pub print_file : String → Statistic → Disk → Output
  unfolding append_row
  print_file path s d = elim (w.parent path) [
    | none ↦ append_row path s d
    | some dir ↦
        if d.is_there dir
        then append_row path s d
        else if w.creates dir
        then append_row path s (record d { is_there = λ q. str_eq q dir || d.is_there q })
        else silent (ok tt) d
  ]

  -- `println!("{}", serde_json::to_string(&self).unwrap())`
  unfoldable pub print_json : Statistic → Disk → Output
  print_json s d = elim (w.to_json s) [
    | none ↦ silent (fault panicked) d
    | some t ↦ record { lines = (words t ∷ []) ∷ []; result = ok tt; disk = d }
  ]

  abbrev pub csv_path : Statistic → String
  csv_path s = w.set_extension s.parameter.output_file_path "csv"

  module _ (fl : Floats) where
    unfoldable pub print_as : OutputFormat → Bool → Statistic → Disk → Output
    unfolding print_file print_json
    print_as text interval_print s d =
        let (ls, o) = print_text fl interval_print s in record { lines = ls; result = o; disk = d }
    print_as json interval_print s d = print_json s d
    print_as file interval_print s d = print_file (csv_path s) s d

    -- The statistic is changed first.
    unfoldable pub print : OutputFormat → Bool → Statistic → Disk → Output × Statistic
    unfolding print_as
    print output_format interval_print s d =
        let t = calculate_statistics fl s in (print_as output_format interval_print t d, t)
