-- ===== src/Executor/Reports.antt =====
-- One pass of `exec` of src/executor.rs, from the results of its threads to the statistic that it returns.
use nperf.Base.{
  ◌+◌, ◌%◌, ap₂, if◌then◌else◌, some, none, inl, inr, Bool-cases, ℕ, ◌^◌, ◌≤◌, ◌<◌, ◌-◌, ◌≡◌, refl,
  ap, sym, subst, ◌∙◌, List, [], ◌∷◌, map, Option, arith, length, length-map, length-range_from,
  range_from, ok, Bool, true, false, ◌>>=◌,
}
use nperf.Config.{is_individual, is_sharding, is_single, Parameter}
use nperf.Config.Floats.{F64, Floats}
use nperf.Net.Socket
use nperf.Net.Socket.{Socket, Answer}
use nperf.Statistic
use nperf.Statistic.{Statistic}
use nperf.Statistic.Counters.{IsSized, AllSized, new-IsSized}
use nperf.Statistic.Kept.{kept, new-datagrams}
use nperf.Statistic.Interval
use nperf.Statistic.Interval.{ids, IntervalCall, calculate_intervals, intervals_from_new}
use nperf.Arguments.{NPerf}
use nperf.Statistic.Print.Output.{World, Disk}
use nperf.Statistic.Print.Rows.{Works}
use nperf.CpuUtil.{Times}
use nperf.Executor.{
  Spawned, spawned, receiver_port_of, test_id_of, create_socket, spawn_threads, ThreadResult,
  amount_interval_outputs, empty_intervals, merge_threads,
}
use nperf.Executor.Loop.{
  Pass, Report, run_pass, shared_ring, thread, pass_times, exec_pass, conclude_pass,
}
use nperf.Executor.Printing.{concluded, conclude_pass-concluded}
use nperf.Executor.Merge.{reported, reported_in_intervals, Numbered, merge_threads-kept}

-- What the settings ask of the thread with the number `i`: its own port where the receiver has one for each thread, and
-- its own test id where more than one connection is simulated.
abbrev planned_thread : NPerf → Parameter → Option Socket → Option ℕ → ℕ → Spawned
planned_thread a p socket fd i = record {
  socket = socket;
  io_uring_fd = fd;
  receiver_port = if is_individual p.multiplex_port_receiver then (a.port + i) % 2 ^ 16 else a.port;
  local_port_sender = if is_sharding p.multiplex_port then some a.sender_port else none;
  test_id = if is_single p.simulate_connection then 0 else i;
}

spawned-planned :
    (a : NPerf) (p : Parameter) (socket : Option Socket) (fd : Option ℕ) (i : ℕ)
    → spawned a p socket fd i ≡ planned_thread a p socket fd i
unfolding spawned receiver_port_of test_id_of
spawned-planned a p socket fd i = elim (Bool-cases (is_individual p.multiplex_port_receiver)) [
  | inl e ↦ rw e refl
  | inr e ↦ rw e refl
]

module _ (fl : Floats) where
  -- What the threads of a pass return: as many as the settings ask for, in their order.
  abbrev pub results : NPerf → Parameter → Pass → Option Socket → List ThreadResult
  results a p x socket =
      map (λ i. thread fl p x (planned_thread a p socket (shared_ring p x) i))
        (range_from 0 p.amount_threads)

  planned_threads :
      (a : NPerf) (p : Parameter) (x : Pass) (socket : Option Socket) (is : List ℕ)
      → map (thread fl p x) (map (spawned a p socket (shared_ring p x)) is)
        ≡ map (λ i. thread fl p x (planned_thread a p socket (shared_ring p x) i)) is
  planned_threads a p x socket [] = refl
  planned_threads a p x socket (i ∷ is) =
      ap₂ (λ t ts. t ∷ ts) (ap (thread fl p x) (spawned-planned a p socket (shared_ring p x) i))
        (planned_threads a p x socket is)

  pub spawn_threads-results :
      (a : NPerf) (p : Parameter) (x : Pass) (socket : Option Socket)
      → map (thread fl p x) (spawn_threads a p socket (shared_ring p x)) ≡ results a p x socket
  unfolding spawn_threads
  spawn_threads-results a p x socket = planned_threads a p x socket (range_from 0 p.amount_threads)

  -- The executor and the threads plan the same number of intervals.
  amount_interval_outputs-planned :
      (p : Parameter) (instant : ℕ) (now : F64)
      → amount_interval_outputs fl p
        ≡ (Statistic.Interval.new fl instant p.output_interval p.test_runtime_length
            now).total_interval_outputs
  unfolding amount_interval_outputs Statistic.Interval.new
  amount_interval_outputs-planned p instant now = refl

  -- Whatever interval calls a thread makes, the executor has a place for each interval that the thread keeps: the
  -- kept ones are numbered from 1 without a gap up to a number that is at most that of the places. The
  -- number of places is below 2^64 - 1.
  pub calculate_intervals-places :
      (p : Parameter) (instant : ℕ) (now : F64) (cs : List (IntervalCall fl))
      → amount_interval_outputs fl p < 2 ^ 64 - 1
      → let v = Statistic.Interval.new fl instant p.output_interval p.test_runtime_length now in
        (k : ℕ) × (ids (calculate_intervals fl v cs).statistics ≡ range_from 1 k)
        × (k ≤ amount_interval_outputs fl p)
  calculate_intervals-places p instant now cs few =
      let same = amount_interval_outputs-planned p instant now in
      let (numbers, _) =
        intervals_from_new fl instant p.output_interval p.test_runtime_length now cs
          (omega arith) in
      (_, numbers, omega arith)

  empty-kept :
      (r : Bool) (p : Parameter) (now : F64) (js : List ℕ)
      → p.uring_parameter.record_utilization ≡ r
      → let vs = map (λ i. record (Statistic.new p now) { interval_id = i }) js in
        (kept vs ≡ 0) × AllSized r vs
  empty-kept r p now [] e = (refl, tt)
  empty-kept r p now (j ∷ js) e =
      let (k, h) = empty-kept r p now js e in
      (omega (arith, new-datagrams fl p now, k), (numbered-IsSized r (new-IsSized r p now e), h))
    where
      numbered-IsSized :
          (r : Bool)
          → IsSized r (Statistic.new p now)
          → IsSized r (record (Statistic.new p now) { interval_id = j })
      numbered-IsSized true h = record { setting = h.setting; slots = h.slots }
      numbered-IsSized false h = record { setting = h.setting; slots = h.slots }

  empty_intervals-kept :
      (r : Bool) (p : Parameter) (now : F64) (n : ℕ)
      → p.uring_parameter.record_utilization ≡ r
      → (kept (empty_intervals fl p now n) ≡ 0)
        × AllSized r (empty_intervals fl p now n)
        × (length (empty_intervals fl p now n) ≡ n)
  unfolding empty_intervals
  empty_intervals-kept r p now n e =
      let (k, h) = empty-kept r p now (range_from 1 n) e in
      (k, h, length-map _ (range_from 1 n) ∙ length-range_from 1 n)

  module _ (w : World) (works : Works w) where
    pub exec_pass-reported :
        (r : Bool) (p : Parameter) (now : F64) (times : Times) (close : Answer)
        (socket : Option Socket) (d : Disk) (rs : List ThreadResult)
        → p.uring_parameter.record_utilization ≡ r
        → Numbered r (amount_interval_outputs fl p) rs
        → amount_interval_outputs fl p < 2 ^ 64
        → reported rs < 2 ^ 64
        → reported_in_intervals rs < 2 ^ 64
        → Socket.close close ≡ ok tt
        → (st : Statistic) × (ws : List Statistic) × (merge_threads fl
              (amount_interval_outputs fl p)
              (Statistic.new p now)
              (empty_intervals fl p now (amount_interval_outputs fl p))
              rs
            ≡ ok (st, ws))
          × (exec_pass fl w p now times close socket d rs
              ≡ ok (concluded fl w works p.output_format times d st ws))
          × ((concluded fl w works p.output_format times d st ws).statistic.amount_datagrams
              ≡ reported rs)
          × AllSized r ws
          × (st.amount_datagrams ≡ reported rs)
          × (kept ws ≡ reported_in_intervals rs)
          × (length ws ≡ amount_interval_outputs fl p)
    unfolding exec_pass
    exec_pass-reported r p now times close socket d rs e nums few a b closed =
        let n = amount_interval_outputs fl p in
        let (k, hv, lv) = empty_intervals-kept r p now n e in
        let z = new-datagrams fl p now in
        let (st, ws, m, many, amount, inside, hs, hw) =
          merge_threads-kept fl r rs (Statistic.new p now) (empty_intervals fl p now n)
            (new-IsSized r p now e) hv (subst (λ n. Numbered r n rs) (sym lv) nums) (omega arith)
            (omega arith) (omega arith) in
        let merged =
          subst
            (λ n'.
              merge_threads fl n' (Statistic.new p now) (empty_intervals fl p now n) rs
              ≡ ok (st, ws))
            lv m in
        let (c, same) =
          conclude_pass-concluded fl w works r p.output_format times close socket d st ws hs hw
            closed in
        (
          st,
          ws,
          merged,
          ap (λ o. o >>= conclude_pass fl w p.output_format times close socket d) merged ∙ c,
          same ∙ amount ∙ omega arith,
          hw,
          amount ∙ omega arith,
          inside ∙ omega arith,
          many ∙ lv,
        )

    -- A pass of the executor, from the start of its threads to the report, ends without a panic, and the
    -- statistic that it returns counts the datagrams of all threads that were a success. The
    -- shared socket, if any, can be made and closed; the intervals of each thread are numbered from 1
    -- without a gap and are no more than planned; the sums and the number of intervals are below 2^64;
    -- each statistic of a thread has the arrays that the settings ask for; and the output can be
    -- written.
    pub run_pass-reported :
        (r : Bool) (a : NPerf) (p : Parameter) (x : Pass) (d : Disk) (socket : Option Socket)
        → create_socket a p x.creation ≡ ok socket
        → Socket.close x.close ≡ ok tt
        → p.uring_parameter.record_utilization ≡ r
        → Numbered r (amount_interval_outputs fl p) (results a p x socket)
        → amount_interval_outputs fl p < 2 ^ 64
        → reported (results a p x socket) < 2 ^ 64
        → reported_in_intervals (results a p x socket) < 2 ^ 64
        → (report : Report) × (run_pass fl w a p x d ≡ ok report)
          × (report.statistic.amount_datagrams ≡ reported (results a p x socket))
    unfolding run_pass
    run_pass-reported r a p x d socket made closed e nums few total in_intervals =
        let (st, ws, _, q, amount, _, _, _, _) =
          exec_pass-reported r p x.now (pass_times fl x.cpu) x.close socket d (results a p x socket)
            e nums few total in_intervals closed in
        (
          concluded fl w works p.output_format (pass_times fl x.cpu) d st ws,
          rw (made, run_pass, spawn_threads-results a p x socket) q,
          amount,
        )
