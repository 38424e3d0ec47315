-- ===== src/Executor/Printing.antt =====
-- What a pass of `exec` of src/executor.rs prints, and what it appends to the file of the results.
use Prim.Native.String.{String}
use nperf.Base.{
  ◌≡◌, refl, ap, sym, subst, ◌∙◌, inl, inr, Bool, true, false, not, ◌==◌, List, [], ◌∷◌, ◌++◌,
  Option, none, some, arith, if◌then◌else◌, Bool-cases, ok,
}
use nperf.Config.{OutputFormat, file}
use nperf.Config.Floats.{Floats}
use nperf.Net.Socket
use nperf.Net.Socket.{Socket, Answer}
use nperf.Statistic.{Statistic, calculate_statistics}
use nperf.Statistic.Counters.{IsSized, AllSized}
use nperf.Statistic.Print.Output.{World, Disk, csv_path, print, print_file}
use mathlib.Core.List.{append-nil, append_assoc}
use nperf.Statistic.Print.Rows.{Works, Saves, csv, print-ok, print_file-csv}
use nperf.CpuUtil.{Times}
use nperf.Executor.Loop.{
  Report, and_output, with_times, print_used, print_intervals, close_shared, conclude_pass,
}

module _ (fl : Floats) (w : World) (works : Works w) where
  print_used-ok :
      (r : Bool) (format : OutputFormat) (b : Bool) (s : Statistic) (d : Disk)
      → IsSized r s
      → ((print_used fl w format b s d).0.result ≡ ok tt)
        × ((print_used fl w format b s d).1.amount_datagrams ≡ s.amount_datagrams)
  unfolding print_used print calculate_statistics
  print_used-ok r format b s d h = ground (arith, print-ok w works fl r format b s d h)

  print_intervals-ok :
      (r : Bool) (format : OutputFormat) (ss : List Statistic) (d : Disk)
      → AllSized r ss
      → (print_intervals fl w format ss d).result ≡ ok tt
  unfolding print_intervals
  print_intervals-ok r format [] d h = refl
  print_intervals-ok r format (s ∷ ss) d h =
      rw ((print_used-ok r format true s d h.0).0, and_output)
        (print_intervals-ok r format ss (print_used fl w format true s d).0.disk h.1)

  -- What a pass leaves that does not panic.
  abbrev pub concluded : OutputFormat → Times → Disk → Statistic → List Statistic → Report
  concluded format times d st vs =
      let a = print_intervals fl w format vs d in
      let b = print_used fl w format false (with_times times st) a.disk in
      record { lines = a.lines ++ b.0.lines; disk = b.0.disk; statistic = b.1 }

  close_shared-ok :
      (close : Answer) (socket : Option Socket)
      → Socket.close close ≡ ok tt
      → close_shared close socket ≡ ok tt
  unfolding close_shared
  close_shared-ok close none e = refl
  close_shared-ok close (some s) e = rw e refl

  with_times-IsSized :
      (r : Bool) (times : Times) (s : Statistic) → IsSized r s → IsSized r (with_times times s)
  with_times-IsSized true times s h = record { setting = h.setting; slots = h.slots }
  with_times-IsSized false times s h = record { setting = h.setting; slots = h.slots }

  pub conclude_pass-concluded :
      (r : Bool) (format : OutputFormat) (times : Times) (close : Answer) (socket : Option Socket)
      (d : Disk) (st : Statistic) (vs : List Statistic)
      → IsSized r st
      → AllSized r vs
      → Socket.close close ≡ ok tt
      → (conclude_pass fl w format times close socket d (st, vs)
          ≡ ok (concluded format times d st vs))
        × ((concluded format times d st vs).statistic.amount_datagrams ≡ st.amount_datagrams)
  unfolding conclude_pass
  conclude_pass-concluded r format times close socket d st vs h hs closed =
      let a = print_intervals-ok r format vs d hs in
      let (b, n) =
        print_used-ok r format false (with_times times st) (print_intervals fl w format vs d).disk
          (with_times-IsSized r times st h) in
      (rw (a, b, close_shared-ok close socket closed) refl, n)

  -- Those that are printed, with their rates.
  abbrev pub used : List Statistic → List Statistic
  used [] = []
  used (s ∷ ss) =
      if not (s.amount_datagrams == 0) then calculate_statistics fl s ∷ used ss else used ss

  abbrev pub AllIn : String → List Statistic → Type 0
  AllIn path [] = Unit {0}
  AllIn path (s ∷ ss) = (csv_path w s ≡ path) × AllIn path ss

  used-cons : (s : Statistic) (ss : List Statistic) → used (s ∷ []) ++ used ss ≡ used (s ∷ ss)
  used-cons s ss = elim (Bool-cases (s.amount_datagrams == 0)) [
    | inl z ↦ rw z refl
    | inr z ↦ rw z refl
  ]

  module _ (path : String) (saves : Saves w path) where
    print_used-csv :
        (b : Bool) (s : Statistic) (d : Disk) (old : List Statistic)
        → csv_path w s ≡ path
        → d.rows path ≡ csv old
        → (print_used fl w file b s d).0.disk.rows path ≡ csv (old ++ used (s ∷ []))
    unfolding print_used print calculate_statistics
    print_used-csv b s d old e q = elim (Bool-cases (s.amount_datagrams == 0)) [
      | inl z ↦ rw z (q ∙ ap csv (sym (append-nil old)))
      | inr z ↦ rw z (
          let t = calculate_statistics fl s in
          subst (λ x. (print_file w x t d).disk.rows path ≡ csv (old ++ (t ∷ []))) (sym e)
            (print_file-csv w works path t d old saves q))
    ]

    print_intervals-csv :
        (r : Bool) (ss : List Statistic) (d : Disk) (old : List Statistic)
        → AllSized r ss
        → AllIn path ss
        → d.rows path ≡ csv old
        → (print_intervals fl w file ss d).disk.rows path ≡ csv (old ++ used ss)
    unfolding print_intervals
    print_intervals-csv r [] d old hs es q = q ∙ ap csv (sym (append-nil old))
    print_intervals-csv r (s ∷ ss) d old hs es q =
        rw ((print_used-ok r file true s d hs.0).0, and_output)
          (print_intervals-csv r ss (print_used fl w file true s d).0.disk (old ++ used (s ∷ []))
              hs.1 es.1 (print_used-csv true s d old es.0 q)
            ∙ ap csv (
                append_assoc old (used (s ∷ [])) (used ss) ∙ ap (λ xs. old ++ xs) (used-cons s ss)))

    -- Whatever a file of results already holds, a pass that prints to it leaves it with the names once, at its
    -- top, and appends a row for each statistic with datagrams, the intervals first, in their order, and the
    -- whole last.
    pub concluded-csv :
        (r : Bool) (times : Times) (d : Disk) (st : Statistic) (vs old : List Statistic)
        → AllSized r vs
        → AllIn path vs
        → csv_path w st ≡ path
        → d.rows path ≡ csv old
        → (concluded file times d st vs).disk.rows path
          ≡ csv ((old ++ used vs) ++ used (with_times times st ∷ []))
    concluded-csv r times d st vs old hs es e q =
        print_used-csv false (with_times times st) (print_intervals fl w file vs d).disk
          (old ++ used vs) e (print_intervals-csv r vs d old hs es q)
