-- ===== src/Node/Receiver/Run.antt =====
-- `Receiver::run` of src/node/receiver.rs without io_uring: its loop over the passes, and what it makes
-- of the statistics of the measurements.
pub mod Uring
pub mod Whole
pub mod Stops
pub mod Datagrams
pub mod Flights
use nperf.Base.{
  ℕ, ◌+◌, Bool, true, false, not, List, [], ◌∷◌, map, Option, none, some, if◌then◌else◌, add64,
  Outcome, ok, err, fault, Fault, Error, eagain, timeout, init_message_received,
  last_message_received, ◌>>=◌, ◌>>◌,
}
use nperf.Config.{IoModel, Parameter, is_sharing, wait_control_message}
use nperf.Config.Floats.{F64, Floats}
use nperf.Net.Socket
use nperf.Net.Socket.{Answer}
use nperf.Statistic
use nperf.Statistic.{Statistic, Measurement, sum_from, set_test_duration, calculate_statistics}
use nperf.Statistic.Interval.{StatisticInterval, calculate_interval, milliseconds}
use nperf.Node.Interval.{Clocks, is_due}
use nperf.Node.Receiver.{Receiver, Reception}
use nperf.Node.Receiver.Measurements.{all_measurements_finished}
use nperf.Node.Receiver.Recv.{recv_messages, io_wait}

-- One pass: the clocks, what the receiving call finds, the clock at the message, and the answer of
-- `select` or `poll`, which is asked after EAGAIN only.
pub record Pass : Type 0 where
  pub clocks : Clocks
  pub reception : Reception
  pub now : F64
  pub ready : Answer

-- The receiver, and the statistic that the loop keeps beside the measurements.
pub record Running : Type 0 where
  pub receiver : Receiver
  pub statistic : Statistic

abbrev pub count_syscall : Running → Running
count_syscall x = record x {
  statistic = record x.statistic { amount_syscalls = add64 x.statistic.amount_syscalls 1 };
}

abbrev pub count_eagain : Running → Running
count_eagain x = record x {
  statistic = record x.statistic {
    amount_io_model_calls = add64 x.statistic.amount_io_model_calls 1;
    amount_eagain = add64 x.statistic.amount_eagain 1;
  };
}

-- `measurement.statistic = Statistic::new(…)` for every measurement.
abbrev pub reset_measurements : F64 → Receiver → List Measurement
reset_measurements now r =
    map (λ (m : Measurement). record m { statistic = Statistic.new r.parameter now }) r.measurements

abbrev pub statistics_of : List Measurement → List Statistic
statistics_of = map (λ m. m.statistic)

-- After TIMEOUT the loop is left.
abbrev pub after_wait : Outcome (Unit {0}) → Outcome Bool
after_wait (ok u) = ok false
after_wait (err timeout) = ok true
after_wait (err e) = err e
after_wait (fault x) = fault x

-- The match on the result of `recv_messages`: whether the loop is left.
abbrev pub after_recv : IoModel → Answer → Outcome (Unit {0}) → Running → Outcome Bool × Running
after_recv m ready (ok u) x = (ok false, x)
after_recv m ready (err eagain) x = (after_wait (io_wait m ready), count_eagain x)
after_recv m ready (err init_message_received) x = (ok false, x)
after_recv m ready (err last_message_received) x =
    (ok (all_measurements_finished x.receiver.measurements), x)
after_recv m ready (err e) x = (err e, x)
after_recv m ready (fault f) x = (fault f, x)

-- What a run of the receiver reads beside its passes.
pub record Environment : Type 0 where
  pub new_statistic_unix : F64
  pub first : Answer
  pub instant : ℕ
  pub unix : F64
  pub closing : Answer
  pub final_new_unix : F64
  pub final_unix : F64

module _ (fl : Floats) where
  -- `measurements.iter().fold(statistic, |acc, measurement| acc + measurement.statistic)`
  unfoldable pub fold_measurements : Running → Outcome Statistic
  fold_measurements x = sum_from fl x.statistic (statistics_of x.receiver.measurements)

  -- A new interval, from the statistic of the old one.
  abbrev pub begin_interval : Clocks → Running → Statistic → Running
  begin_interval c x t =
      let r = x.receiver in
      record {
        receiver = record r {
          statistic_interval = calculate_interval fl t c.call c.call_unix r.statistic_interval;
          measurements = reset_measurements c.new_unix r;
        };
        statistic = Statistic.new r.parameter c.new_unix;
      }

  unfoldable pub check_interval : Clocks → Running → Outcome Running
  unfolding fold_measurements is_due
  check_interval c x =
      if is_due fl c.due x.receiver.statistic_interval
      then (fold_measurements x >>= λ t. ok (begin_interval c x t))
      else ok x

  abbrev pub receive : IoModel → Pass → Running → Outcome Bool × Running
  receive m p x =
      let (o, r) = recv_messages fl p.reception p.now x.receiver in
      after_recv m p.ready o (record x { receiver = r })

  -- Whether the loop is left with this pass.
  unfoldable pub recv_pass : IoModel → Pass → Running → Outcome Bool × Running
  recv_pass m p x = elim (check_interval p.clocks (count_syscall x)) [
    | err e ↦ (err e, count_syscall x)
    | fault f ↦ (fault f, count_syscall x)
    | ok y ↦ receive m p y
  ]

  -- none where the passes are used up and the loop goes on.
  unfoldable pub recv_loop : IoModel → List Pass → Running → Option (Outcome (Unit {0})) × Running
  unfolding recv_pass
  recv_loop m [] x = (none, x)
  recv_loop m (p ∷ ps) x =
      let (left, y) = recv_pass m p x in
      let rest = recv_loop m ps y in
      elim left [
        | ok true ↦ (some (ok tt), y)
        | ok false ↦ rest
        | err e ↦ (some (err e), y)
        | fault f ↦ (some (fault f), y)
      ]

  -- A second for the control message, of the clock, is `wait_control_message / 1000`.
  abbrev pub wait_seconds : F64
  wait_seconds = fl.div (fl.of_u64 wait_control_message) (fl.of_u64 1000)

  -- The sum of the intervals, or that of the measurements where there are none.
  unfoldable pub final_statistic : F64 → F64 → Running → Outcome Statistic
  unfolding fold_measurements
  final_statistic now unix x =
      let v = x.receiver.statistic_interval in
      elim v.statistics [
        | [] ↦ fold_measurements x >>= λ t.
            ok (
              set_test_duration fl (some v.last_send_timestamp) (some (fl.sub unix wait_seconds)) t)
        | s ∷ ss ↦ sum_from fl (Statistic.new x.receiver.parameter now) (s ∷ ss)
      ]

  -- What follows the loop. A shared socket is not closed here.
  unfoldable pub conclude_run : Answer → F64 → F64 → Running → Outcome (Statistic × List Statistic)
  unfolding final_statistic
  conclude_run closing now unix x =
      (if not (is_sharing x.receiver.parameter.multiplex_port_receiver)
        then Socket.close closing
        else ok tt)
      >> final_statistic now unix x
      >>= λ t. ok (
        calculate_statistics fl (set_test_duration fl none none t),
        x.receiver.statistic_interval.statistics,
      )

  -- The clocks are moved past the wait after INIT.
  unfoldable pub begin_run : ℕ → F64 → Running → Running
  begin_run instant unix x =
      let r = x.receiver in
      record {
        receiver = record r {
          statistic_interval = record r.statistic_interval {
            last_send_instant = instant + milliseconds wait_control_message;
            last_send_timestamp = fl.add unix wait_seconds;
          };
        };
        statistic = record x.statistic {
          start_timestamp = r.statistic_interval.last_send_timestamp;
        };
      }

  -- From the end of the loop.
  abbrev pub finish_run :
      Environment
      → Option (Outcome (Unit {0})) × Running
      → Option (Outcome (Statistic × List Statistic))
  finish_run w (none, x) = none
  finish_run w (some (err e), x) = some (err e)
  finish_run w (some (fault f), x) = some (fault f)
  finish_run w (some (ok u), x) = some (conclude_run w.closing w.final_new_unix w.final_unix x)

  -- The run around a loop: a thread that gets no first packet returns an empty statistic.
  unfoldable pub run_around :
      (Running → Option (Outcome (Unit {0})) × Running)
      → Environment
      → Receiver
      → Option (Outcome (Statistic × List Statistic))
  unfolding conclude_run begin_run
  run_around loop w r =
      let fresh = Statistic.new r.parameter w.new_statistic_unix in
      elim (Socket.poll w.first) [
        | err timeout ↦ some (ok (fresh, []))
        | err e ↦ some (err e)
        | fault f ↦ some (fault f)
        | ok u ↦
            finish_run w
              (loop (begin_run w.instant w.unix (record { receiver = r; statistic = fresh })))
      ]
