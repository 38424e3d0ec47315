-- ===== src/Statistic/Print/Panics.antt =====
-- When `Statistic::print` of src/util/statistic.rs panics.
use Prim.Native.String.{String}
use package.text.Mathlib.Text.{◌==◌ as str_eq}
use nperf.Base.{
  ◌≡◌, refl, sym, subst, ◌||◌, ◌⊎◌, inl, inr, Bool, true, false, ◌&&◌, none, some, Outcome, ok,
  fault, panicked, Bool-cases, Option-cases,
}
use nperf.Config.{OutputFormat, text, json, file}
use nperf.Config.Floats.{Floats}
use nperf.Statistic.{Statistic, calculate_statistics}
use nperf.Statistic.Counters.{IsSized}
use nperf.Statistic.Print.Output.{
  Disk, World, append_row, print_file, print_json, csv_path, print_as, print,
}
use nperf.Statistic.Print.Rows.{print_text-ok, calculate_statistics-IsSized}

module _ (w : World) where
  -- A row is written only to a file that opens, in a directory that is there or can be created.
  abbrev pub HasDirectory : String → Disk → Type 0
  HasDirectory path d =
      (dir : String) → w.parent path ≡ some dir → d.is_there dir ≡ false → w.creates dir ≡ true

  abbrev pub Reaches : String → Disk → Type 0
  Reaches path d = (w.opens path ≡ true) × HasDirectory path d

  -- What a format cannot do: serde_json makes no text, or the size of the file that is reached cannot be read or the row
  -- not be written.
  abbrev pub Broken : OutputFormat → Statistic → Disk → Type 0
  Broken text s d = ⊥
  Broken json s d = w.to_json s ≡ none
  Broken file s d = Reaches (csv_path w s) d × ((w.sizes (csv_path w s) && w.writes s) ≡ false)

  -- It goes on, and nothing is broken; or it panics, and it is.
  abbrev pub Ends : Type 0 → Outcome (Unit {0}) → Type 0
  Ends P o = ((o ≡ ok tt) × (P → ⊥)) ⊎ ((o ≡ fault panicked) × P)

  append_row-Ends :
      (path : String) (s : Statistic) (d e : Disk)
      → HasDirectory path e
      → Ends
          (Reaches path e × ((w.sizes path && w.writes s) ≡ false))
          (append_row w path s d).result
  unfolding append_row
  append_row-Ends path s d e there = elim (Bool-cases (w.opens path)) [
    | inl o ↦ elim (Bool-cases (w.sizes path && w.writes s)) [
      | inl q ↦ rw (o, q, append_row) (inl (refl, λ b. cc (b.1, q)))
      | inr q ↦ rw (o, q, append_row) (inr (refl, ((refl, there), refl)))
    ]
    | inr o ↦ rw (o, append_row) (inl (refl, λ b. cc (b.0.0, o)))
  ]

  -- `print_file` comes to the row, or gives up where the directory cannot be created.
  print_file-Ends :
      (path : String) (s : Statistic) (d : Disk)
      → Ends
          (Reaches path d × ((w.sizes path && w.writes s) ≡ false))
          (print_file w path s d).result
  unfolding print_file
  print_file-Ends path s d = elim (Option-cases (w.parent path)) [
    | inl e ↦
        let same : (print_file w path s d).result ≡ (append_row w path s d).result =
          rw (e, print_file) refl in
        subst (Ends _) (sym same) (append_row-Ends path s d d (λ dir q m. cc (e, q)))
    | inr (dir, e) ↦ elim (Bool-cases (d.is_there dir)) [
      | inl there ↦
          let same : (print_file w path s d).result ≡ (append_row w path s d).result =
            rw (e, there, print_file) refl in
          subst (Ends _) (sym same)
            (append_row-Ends path s d d (λ dir' q m. absurd (cc (e, q, m, there))))
      | inr missing ↦ elim (Bool-cases (w.creates dir)) [
        | inl made ↦
            let e' : Disk = record d { is_there = λ q. str_eq q dir || d.is_there q } in
            let same : (print_file w path s d).result ≡ (append_row w path s e').result =
              rw (e, missing, made, print_file) refl in
            subst (Ends _) (sym same) (append_row-Ends path s e' d (λ dir' q m. cc (e, q, made)))
        | inr refused ↦
            let same : (print_file w path s d).result ≡ ok tt =
              rw (e, missing, refused, print_file) refl in
            subst (Ends _) (sym same) (inl (refl, λ b. cc (b.0.1 dir e missing, refused)))
      ]
    ]
  ]

  print_json-Ends : (s : Statistic) (d : Disk) → Ends (w.to_json s ≡ none) (print_json w s d).result
  unfolding print_json
  print_json-Ends s d = elim (Option-cases (w.to_json s)) [
    | inl e ↦
        let same : (print_json w s d).result ≡ fault panicked = rw (e, print_json) refl in
        inr (same, e)
    | inr (t, e) ↦
        let same : (print_json w s d).result ≡ ok tt = rw (e, print_json) refl in
        inl (same, λ b. cc (b, e))
  ]

  module _ (fl : Floats) where
    -- The printing of a statistic with the arrays that the settings ask for either goes on or panics, and it
    -- panics exactly in these cases: in the json format where serde_json makes no text of the statistic, whose
    -- rates are computed before; and in the file format where the file is opened, in a directory that is none, is there or
    -- can be created, but its size cannot be read or the row not be written. In the text format it never panics.
    pub print-Ends :
        (r : Bool) (format : OutputFormat) (interval_print : Bool) (s : Statistic) (d : Disk)
        → IsSized r s
        → Ends
            (Broken format (calculate_statistics fl s) d)
            (print w fl format interval_print s d).0.result
    unfolding print print_as
    print-Ends r text b s d h = inl (
      print_text-ok fl r b (calculate_statistics fl s) (calculate_statistics-IsSized fl r s h),
      λ x. x,
    )
    print-Ends r json b s d h = print_json-Ends (calculate_statistics fl s) d
    print-Ends r file b s d h =
        print_file-Ends (csv_path w (calculate_statistics fl s)) (calculate_statistics fl s) d
