-- ===== src/Executor/Recorded.antt =====
-- The file of the results after a pass of `exec` of src/executor.rs.
use nperf.Base.{
  length, ℕ, zero, suc, ◌^◌, ◌<◌, ◌≡◌, refl, ap, sym, subst, ◌∙◌, inl, inr, Bool, true, false, not,
  ◌==◌, List, [], ◌∷◌, ◌++◌, map, Option, some, arith, ok, err, fault, bind_ok, ok_inj,
  Option-cases, get_elem?, set, sub64, if◌then◌else◌,
}
use nperf.Config.{Parameter, file}
use nperf.Config.Floats.{F64, Floats}
use nperf.Statistic
use nperf.Statistic.{Statistic, add}
use nperf.Net.Socket
use nperf.Net.Socket.{Socket}
use nperf.Arguments.{NPerf}
use nperf.Statistic.Kept.{kept}
use nperf.Statistic.Print.Output.{World, Disk}
use nperf.Statistic.Print.Rows.{Works, Saves, csv}
use nperf.Executor.Loop.{Pass, Report, run_pass, pass_times, with_times}
use nperf.Executor.Merge.{reported, reported_in_intervals, Numbered}
use nperf.Executor.Printing.{AllIn, used, concluded, concluded-csv}
use nperf.Executor.Places.{Placed, amount_in_interval, merge_threads-Placed}
use nperf.Executor.Reports.{spawn_threads-results, results, exec_pass-reported}
use nperf.Executor.{
  create_socket, ThreadResult, merge_interval, merge_intervals, merge_threads,
  amount_interval_outputs, empty_intervals,
}

-- Every statistic has these settings.
abbrev AllOf : Parameter → List Statistic → Type 0
AllOf p [] = Unit {0}
AllOf p (s ∷ ss) = (s.parameter ≡ p) × AllOf p ss

AllOf-set :
    (p : Parameter) (vs : List Statistic) (i : ℕ) (t : Statistic)
    → AllOf p vs
    → t.parameter ≡ p
    → AllOf p (set vs i t)
AllOf-set p [] i t h e = tt
AllOf-set p (v ∷ vs) zero t h e = (e, h.1)
AllOf-set p (v ∷ vs) (suc i) t h e = (h.0, AllOf-set p vs i t h.1 e)

AllOf-get :
    (p : Parameter) (vs : List Statistic) (i : ℕ) (v : Statistic)
    → AllOf p vs
    → get_elem? vs i ≡ some v
    → v.parameter ≡ p
AllOf-get p [] i v h e = cc
AllOf-get p (x ∷ vs) zero v h e = cc
AllOf-get p (x ∷ vs) (suc i) v h e = AllOf-get p vs i v h.1 e

module _ (fl : Floats) where
  add-parameter : (a b c : Statistic) → add fl a b ≡ ok c → c.parameter ≡ a.parameter
  unfolding add
  add-parameter a b c e = ground arith

  merge_interval-AllOf :
      (p : Parameter) (vs : List Statistic) (s : Statistic) (ws : List Statistic)
      → AllOf p vs
      → merge_interval fl vs s ≡ ok ws
      → AllOf p ws
  unfolding merge_interval
  merge_interval-AllOf p vs s ws h e = elim (Option-cases (get_elem? vs (sub64 s.interval_id 1))) [
    | inl q ↦ cc (rw (q, merge_interval) at e)
    | inr (v, q) ↦
        let (t, a, b) = bind_ok (add fl v s) _ ws (rw (q, merge_interval) at e) in
        subst (AllOf p) (ok_inj b) (
          AllOf-set p vs (sub64 s.interval_id 1) t h
            (add-parameter v s t a ∙ AllOf-get p vs (sub64 s.interval_id 1) v h q))
  ]

  merge_intervals-AllOf :
      (p : Parameter) (ss vs ws : List Statistic)
      → AllOf p vs
      → merge_intervals fl vs ss ≡ ok ws
      → AllOf p ws
  unfolding merge_intervals
  merge_intervals-AllOf p [] vs ws h e = subst (AllOf p) (ok_inj e) h
  merge_intervals-AllOf p (s ∷ ss) vs ws h e =
      let (us, a, b) = bind_ok (merge_interval fl vs s) _ ws e in
      merge_intervals-AllOf p ss us ws (merge_interval-AllOf p vs s us h a) b

  merged-AllOf :
      (p : Parameter) (asked : Bool) (ss vs ws : List Statistic)
      → AllOf p vs
      → (if asked then merge_intervals fl vs ss else ok vs) ≡ ok ws
      → AllOf p ws
  merged-AllOf p true ss vs ws h e = merge_intervals-AllOf p ss vs ws h e
  merged-AllOf p false ss vs ws h e = subst (AllOf p) (ok_inj e) h

  merge_threads-AllOf :
      (p : Parameter) (n : ℕ) (rs : List ThreadResult) (final : Statistic) (vs : List Statistic)
      (st : Statistic) (ws : List Statistic)
      → final.parameter ≡ p
      → AllOf p vs
      → merge_threads fl n final vs rs ≡ ok (st, ws)
      → (st.parameter ≡ p) × AllOf p ws
  unfolding merge_threads
  merge_threads-AllOf p n [] final vs st ws h hv e =
      subst (λ (x : Statistic × List Statistic). (x.0.parameter ≡ p) × AllOf p x.1) (ok_inj e)
        (h, hv)
  merge_threads-AllOf p n (err x ∷ rs) final vs st ws h hv e =
      merge_threads-AllOf p n rs final vs st ws h hv e
  merge_threads-AllOf p n (fault x ∷ rs) final vs st ws h hv e =
      merge_threads-AllOf p n rs final vs st ws h hv e
  merge_threads-AllOf p n (ok (s, ss) ∷ rs) final vs st ws h hv e =
      let (t, a, b) = bind_ok (add fl final s) _ (st, ws) e in
      let (us, c, d) =
        bind_ok (if not (n == 0) then merge_intervals fl vs ss else ok vs) _ (st, ws) b in
      merge_threads-AllOf p n rs t us st ws (add-parameter final s t a ∙ h)
        (merged-AllOf p (not (n == 0)) ss vs us hv c) d

  -- The settings of the executor's own statistics.
  empty_intervals-AllOf :
      (p : Parameter) (now : F64) (js : List ℕ)
      → AllOf p (map (λ i. record (Statistic.new p now) { interval_id = i }) js)
  unfolding Statistic.new
  empty_intervals-AllOf p now [] = tt
  empty_intervals-AllOf p now (j ∷ js) = (refl, empty_intervals-AllOf p now js)

  AllOf-AllIn :
      (w : World) (works : Works w) (p : Parameter) (ss : List Statistic)
      → AllOf p ss
      → AllIn fl w works (w.set_extension p.output_file_path "csv") ss
  AllOf-AllIn w works p [] h = tt
  AllOf-AllIn w works p (s ∷ ss) h = (
    ap (λ (q : Parameter). w.set_extension q.output_file_path "csv") h.0,
    AllOf-AllIn w works p ss h.1,
  )

  -- A pass that saves its results leaves a file of results with the names once, at its top: to what the file held it
  -- appends a row for each planned interval with datagrams, in the order of their numbers, and one for the whole, if
  -- there are any. The intervals are numbered from 1, as many as planned, and the one with number k counts the datagrams
  -- that the threads that were a success have in their intervals with that number; the whole counts those in their final
  -- statistics. There are as many threads as the settings ask for, each with its port and test id. Nothing
  -- panics. The pass is sound and the plan bounded as for `main-reported`, serde_json makes a text of every statistic, the
  -- size of a file can be read, every row can be written, and the file can be opened and its directory created.
  pub run_pass-csv :
      (w : World) (works : Works w) (r : Bool) (a : NPerf) (p : Parameter) (x : Pass) (d : Disk)
      (socket : Option Socket) (old : List Statistic)
      → create_socket a p x.creation ≡ ok socket
      → Socket.close x.close ≡ ok tt
      → p.uring_parameter.record_utilization ≡ r
      → Numbered r (amount_interval_outputs fl p) (results fl a p x socket)
      → amount_interval_outputs fl p < 2 ^ 64
      → reported (results fl a p x socket) < 2 ^ 64
      → reported_in_intervals (results fl a p x socket) < 2 ^ 64
      → p.output_format ≡ file
      → let path = w.set_extension p.output_file_path "csv" in
        Saves w path
        → d.rows path ≡ csv old
        → (report : Report) × (st : Statistic) × (vs : List Statistic) × (run_pass fl w a p x d
            ≡ ok report)
          × (report.disk.rows path ≡ csv ((old ++ used fl w works vs) ++ used fl w works (st ∷ [])))
          × (st.amount_datagrams ≡ reported (results fl a p x socket))
          × (kept vs ≡ reported_in_intervals (results fl a p x socket))
          × (length vs ≡ amount_interval_outputs fl p)
          × Placed (λ k. amount_in_interval k (results fl a p x socket)) 1 vs
  unfolding run_pass empty_intervals Statistic.new
  run_pass-csv w works r a p x d socket old made closed e nums few total in_intervals format saves
        q =
      let path = w.set_extension p.output_file_path "csv" in
      let times = pass_times fl x.cpu in
      let (st, ws, m, k, _, hw, amount, inside, many) =
        exec_pass-reported fl w works r p x.now times x.close socket d (results fl a p x socket) e
          nums few total in_intervals closed in
      let (same, all) =
        merge_threads-AllOf p _ _ _ _ st ws refl (empty_intervals-AllOf p x.now _) m in
      (
        concluded fl w works p.output_format times d st ws,
        with_times times st,
        ws,
        rw (made, run_pass, spawn_threads-results fl a p x socket) k,
        subst
            (λ f.
              (concluded fl w works f times d st ws).disk.rows path
              ≡ csv ((old ++ used fl w works ws) ++ used fl w works (with_times times st ∷ [])))
            (sym format)
            (concluded-csv fl w works path saves r times d st ws old hw
              (AllOf-AllIn w works p ws all)
              (ap (λ (x : Parameter). w.set_extension x.output_file_path "csv") same) q),
        amount,
        inside,
        many,
        merge_threads-Placed fl r p x.now (amount_interval_outputs fl p) (results fl a p x socket)
            (Statistic.new p x.now) st ws few nums in_intervals m,
      )
