-- ===== src/Statistic/Print/Rows.antt =====
-- What `Statistic::print` of src/util/statistic.rs leaves: no panic, and a file with one row of names.
use Prim.Native.String.{String}
use package.text.Mathlib.Text.{◌==◌ as str_eq}
use package.text.Mathlib.TextPositions.{eq_refl}
use nperf.Base.{
  ◌≡◌, refl, ap, ◌∙◌, inl, inr, Bool, true, false, List, [], ◌∷◌, ◌++◌, map, Option, none, some, ok,
  err, fault, ℕ, arith, Bool-cases, Option-cases, if◌then◌else◌,
}
use nperf.Config.{OutputFormat, text, json, file, is_io_uring}
use nperf.Config.Floats.{Floats}
use nperf.Statistic.{Statistic, calculate_statistics, sq_slots, cq_slots, inflight_slots}
use nperf.Statistic.Counters.{IsSized, Slots, HasSlots}
use nperf.Statistic.Print.{Lines, and_lines, uring_lines, utilization_lines, print_text}
use nperf.Statistic.Print.Output.{
  Row, header, values, Disk, World, appended, append_row, print_file, print_json, csv_path,
  print_as, print,
}

-- The crates and the file system can do what they are asked for, but maybe open a file.
pub record Works (w : World) : Type 0 where
  pub to_json : (s : Statistic) → (t : String) × (w.to_json s ≡ some t)
  pub sizes : (path : String) → w.sizes path ≡ true
  pub writes : (s : Statistic) → w.writes s ≡ true

-- A file that holds these statistics: nothing, or the names and a row for each.
abbrev pub csv : List Statistic → List Row
csv [] = []
csv (s ∷ ss) = header ∷ map values (s ∷ ss)

map-append_one :
    (s : Statistic) (ss : List Statistic)
    → map values ss ++ (values s ∷ []) ≡ map values (ss ++ (s ∷ []))
map-append_one s [] = refl
map-append_one s (t ∷ ts) = ap (λ rs. values t ∷ rs) (map-append_one s ts)

pub appended-csv :
    (s : Statistic) (ss : List Statistic) → appended s (csv ss) ≡ csv (ss ++ (s ∷ []))
unfolding appended
appended-csv s [] = refl
appended-csv s (t ∷ ts) = ap (λ rs. header ∷ rs) (map-append_one s (t ∷ ts))

and_lines-ok : (a b : Lines) → a.1 ≡ ok tt → b.1 ≡ ok tt → (and_lines a b).1 ≡ ok tt
and_lines-ok (ls, ok u) (ms, o) e f = f
and_lines-ok (ls, err x) (ms, o) e f = cc
and_lines-ok (ls, fault x) (ms, o) e f = cc

utilization_lines-ok :
    (title label : String) (n : ℕ) (slots : Option (List ℕ))
    → HasSlots n slots
    → (utilization_lines title label slots).1 ≡ ok tt
unfolding utilization_lines
utilization_lines-ok title label n none h = absurd h
utilization_lines-ok title label n (some xs) h = refl

-- The arrays are there where they are asked for.
utilization-ok :
    (r : Bool) (s : Statistic)
    → Slots r s
    → (if r
        then and_lines (utilization_lines "Uring SQ utilization:" "SQ" s.uring_sq_utilization) (
            and_lines (utilization_lines "Uring CQ utilization:" "CQ" s.uring_cq_utilization) (
              utilization_lines "Uring Inflight utilization:" "Inflight"
                s.uring_inflight_utilization))
        else ([], ok tt)).1
      ≡ ok tt
utilization-ok false s h = refl
utilization-ok true s (sq, cq, inflight) =
    and_lines-ok _ _ (utilization_lines-ok _ _ sq_slots _ sq) (
      and_lines-ok _ _ (utilization_lines-ok _ _ cq_slots _ cq)
        (utilization_lines-ok _ _ inflight_slots _ inflight))

uring_lines-ok : (r : Bool) (s : Statistic) → IsSized r s → (uring_lines s).1 ≡ ok tt
unfolding uring_lines
uring_lines-ok r s h = rw h.setting (utilization-ok r s h.slots)

module _ (fl : Floats) where
  pub print_text-ok :
      (r interval_print : Bool) (s : Statistic)
      → IsSized r s
      → (print_text fl interval_print s).1 ≡ ok tt
  unfolding print_text
  print_text-ok r true s h = refl
  print_text-ok r false s h = elim (Bool-cases (is_io_uring s.parameter.io_model)) [
    | inl q ↦ rw q (uring_lines-ok r s h)
    | inr q ↦ rw q refl
  ]

  pub calculate_statistics-IsSized :
      (r : Bool) (s : Statistic) → IsSized r s → IsSized r (calculate_statistics fl s)
  unfolding calculate_statistics
  calculate_statistics-IsSized true s h = record { setting = h.setting; slots = h.slots }
  calculate_statistics-IsSized false s h = record { setting = h.setting; slots = h.slots }

-- The file can be opened, and its directory created where it has one.
pub record Saves (w : World) (path : String) : Type 0 where
  pub opens : w.opens path ≡ true
  pub creates : (dir : String) → w.parent path ≡ some dir → w.creates dir ≡ true

module _ (w : World) (works : Works w) where
  append_row-ok :
      (path : String) (s : Statistic) (d : Disk) → (append_row w path s d).result ≡ ok tt
  unfolding append_row
  append_row-ok path s d = rw (works.sizes path, works.writes s) (ground arith)

  print_file-ok :
      (path : String) (s : Statistic) (d : Disk) → (print_file w path s d).result ≡ ok tt
  unfolding print_file
  print_file-ok path s d = ground (arith, append_row-ok path s d)

  print_json-ok : (s : Statistic) (d : Disk) → (print_json w s d).result ≡ ok tt
  unfolding print_json
  print_json-ok s d = rw ((works.to_json s).1, print_json) refl

  module _ (fl : Floats) where
    -- A statistic with the arrays that the settings ask for is printed without a panic or an error in each
    -- format, whether or not the file of the results and its directory can be opened and made, where serde_json makes a
    -- text of every statistic, the size of an opened file can be read, and every row can be written.
    pub print-ok :
        (r : Bool) (format : OutputFormat) (interval_print : Bool) (s : Statistic) (d : Disk)
        → IsSized r s
        → (print w fl format interval_print s d).0.result ≡ ok tt
    unfolding print print_as
    print-ok r text b s d h =
        print_text-ok fl r b (calculate_statistics fl s) (calculate_statistics-IsSized fl r s h)
    print-ok r json b s d h = print_json-ok (calculate_statistics fl s) d
    print-ok r file b s d h =
        print_file-ok (csv_path w (calculate_statistics fl s)) (calculate_statistics fl s) d

  append_row-rows :
      (path : String) (s : Statistic) (d : Disk)
      → w.opens path ≡ true
      → (q : String)
      → (append_row w path s d).disk.rows q
        ≡ (if str_eq q path then appended s (d.rows q) else d.rows q)
  unfolding append_row
  append_row-rows path s d e q = rw (e, works.sizes path, works.writes s) refl

  print_file-rows :
      (path : String) (s : Statistic) (d : Disk)
      → Saves w path
      → (q : String)
      → (print_file w path s d).disk.rows q
        ≡ (if str_eq q path then appended s (d.rows q) else d.rows q)
  unfolding print_file
  print_file-rows path s d saves q = elim (Option-cases (w.parent path)) [
    | inl e ↦ rw (e, print_file) (append_row-rows path s d saves.opens q)
    | inr (dir, e) ↦ elim (Bool-cases (d.is_there dir)) [
      | inl there ↦ rw (e, there, print_file) (append_row-rows path s d saves.opens q)
      | inr missing ↦
          rw (e, missing, saves.creates dir e, print_file) (append_row-rows path s _ saves.opens q)
    ]
  ]

  -- What a file holds that has these statistics and gets one more.
  pub print_file-csv :
      (path : String) (s : Statistic) (d : Disk) (ss : List Statistic)
      → Saves w path
      → d.rows path ≡ csv ss
      → (print_file w path s d).disk.rows path ≡ csv (ss ++ (s ∷ []))
  print_file-csv path s d ss saves e =
      print_file-rows path s d saves path ∙ rw (eq_refl path, e) (appended-csv s ss)
