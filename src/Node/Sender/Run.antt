-- ===== src/Node/Sender/Run.antt =====
-- `Sender::run` of src/node/sender.rs without io_uring: its loop over the passes, each with the
-- clocks and the kernel's answers of that pass, and what it makes of the statistics at the end.
pub mod Accounts
pub mod Ending
pub mod Final
pub mod Passes
pub mod Uring
pub mod Settling
pub mod Settles
pub mod Whole
use nperf.Base.{
  ℕ, ◌/◌, Bool, true, false, not, ◌&&◌, List, [], ◌∷◌, Option, none, some, leb, if◌then◌else◌,
  add64, Outcome, ok, err, fault, Fault, Error, eagain, ◌>>=◌, ◌>>◌,
}
use nperf.Config.{IoModel, Parameter}
use nperf.Config.Floats.{F64, zero_f64, Floats}
use nperf.Net.Header.{init, last}
use nperf.Net.Socket.{Answer}
use nperf.Buffer.Msghdr.{Msghdr}
use nperf.Buffer.PacketBuffer.{Mmsghdr}
use nperf.Statistic
use nperf.Statistic.{Statistic, sum_from, set_test_duration, calculate_statistics}
use nperf.Statistic.Interval
use nperf.Statistic.Interval.{StatisticInterval, calculate_interval, finished}
use nperf.Node.Interval.{Clocks, elapsed, as_secs, is_due}
use nperf.Node.Sender.{Sender, Sent, send_messages, io_wait, send_control_message}

-- One pass: the answer of the sending call with its effect on the messages, and that of `select` or
-- `poll`, which is asked after EAGAIN only.
pub record Round : Type 0 where
  pub clocks : Clocks
  pub answer : Answer
  pub wrote : List Mmsghdr → List Mmsghdr
  pub ready : Answer

abbrev pub count_syscall : Sender → Sender
count_syscall s = record s {
  statistic = record s.statistic { amount_syscalls = add64 s.statistic.amount_syscalls 1 };
}

abbrev pub count_eagain : Sender → Sender
count_eagain s = record s {
  statistic = record s.statistic {
    amount_io_model_calls = add64 s.statistic.amount_io_model_calls 1;
    amount_eagain = add64 s.statistic.amount_eagain 1;
  };
}

-- `?` on `io_wait`, and the count of the call after it.
abbrev pub after_wait : Outcome (Unit {0}) → Sender → Sent
after_wait (ok u) s = (ok tt, count_syscall s)
after_wait (err e) s = (err e, s)
after_wait (fault x) s = (fault x, s)

-- The match on the result of `send_messages`.
abbrev pub after_send : IoModel → Answer → Sent → Sent
after_send m ready (ok u, s) = (ok tt, count_syscall s)
after_send m ready (err eagain, s) = after_wait (io_wait m ready) (count_eagain s)
after_send m ready (err e, s) = (err e, s)
after_send m ready (fault x, s) = (fault x, s)

module _ (fl : Floats) where
  -- Where an interval is over, its statistic is kept and a new one begins.
  unfoldable pub check_interval : Clocks → Sender → Sender
  unfolding is_due
  check_interval c s =
      if is_due fl c.due s.statistic_interval
      then record s {
        statistic_interval =
            calculate_interval fl s.statistic c.call c.call_unix s.statistic_interval;
        statistic = Statistic.new s.parameter c.new_unix;
      }
      else s

  unfoldable pub send_round : IoModel → Round → Sender → Sent
  unfolding check_interval
  send_round m r s =
      after_send m r.ready (send_messages r.answer r.wrote (check_interval r.clocks s))

  -- `while start_time.elapsed().as_secs() < self.run_time_length`: none where the passes are used up
  -- and the loop goes on, else the result with which it ends.
  unfoldable pub send_loop :
      IoModel → ℕ → List Round → Sender → Option (Outcome (Unit {0})) × Sender
  unfolding send_round
  send_loop m start [] s = (none, s)
  send_loop m start (r ∷ rs) s =
      let t = send_round m r s in
      let rest = send_loop m start rs t.1 in
      if leb s.run_time_length (as_secs (elapsed start r.clocks.test))
      then (some (ok tt), s)
      else elim t.0 [ ok u ↦ rest | err e ↦ (some (err e), t.1) | fault x ↦ (some (fault x), t.1) ]

  -- The last interval, if there is one to come.
  unfoldable pub close_interval : ℕ → F64 → Sender → Sender
  close_interval now unix s =
      if not (fl.feq s.statistic_interval.output_interval zero_f64)
        && not (finished s.statistic_interval)
      then record s {
        statistic_interval = calculate_interval fl s.statistic now unix s.statistic_interval;
      }
      else s

  -- The sum of the intervals, or the statistic itself where there are none.
  unfoldable pub final_statistic : F64 → F64 → Sender → Outcome Statistic
  final_statistic now unix s = elim s.statistic_interval.statistics [
    | [] ↦ ok (
        set_test_duration fl (some s.statistic_interval.last_send_timestamp) (some unix)
          s.statistic)
    | x ∷ xs ↦ sum_from fl (Statistic.new s.parameter now) (x ∷ xs)
  ]

  -- What follows the loop, `LAST` included: `now` and `unix` are the clocks of the last interval,
  -- `new_unix` and `end_unix` those of the final statistic.
  unfoldable pub conclude_run :
      ℕ → F64 → F64 → F64 → (Msghdr → Answer) → Sender → Outcome (Statistic × List Statistic)
  unfolding close_interval final_statistic
  conclude_run now unix new_unix end_unix answer s =
      let closed = close_interval now unix s in
      final_statistic new_unix end_unix closed >>= λ t.
      send_control_message fl last answer closed
      >> ok (
        calculate_statistics fl (set_test_duration fl none none t),
        closed.statistic_interval.statistics,
      )
