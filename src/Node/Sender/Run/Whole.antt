-- ===== src/Node/Sender/Run/Whole.antt =====
-- A whole run of a sender without io_uring and without intervals: `Sender::run` of src/node/sender.rs.
use nperf.Base.{◌≡◌, List, [], Option, none, some, Outcome, ok, err, Error, ◌>>◌}
use nperf.Config.Floats.{Floats}
use nperf.Net.Header.{last}
use nperf.Statistic
use nperf.Statistic.{Statistic, set_test_duration, calculate_statistics}
use nperf.Statistic.Interval
use nperf.Node.Sender.{Sender, send_control_message}
use nperf.Node.Sender.Run.Uring.{Environment}

module _ (fl : Floats) where
  abbrev reported : Statistic → Statistic
  reported t = calculate_statistics fl (set_test_duration fl none none t)

  -- What a run ends with that leaves its loop with `o` and the sender `x`: the error of the loop, or what the sending
  -- of LAST by `x` makes of a statistic that counts as many datagrams as `x` gave out ids.
  pub data RunEnds (w : Environment) (x : Sender)
      : Option (Outcome (Unit {0})) → Option (Outcome (Statistic × List Statistic)) → Type 0 where
    aborted : (e : Error) → RunEnds w x (some (err e)) (some (err e))
    measured :
        (st : Statistic)
        → st.amount_datagrams ≡ x.next_packet_id
        → RunEnds w x
            (some (ok tt))
            (some (send_control_message fl last w.last_answer x >> ok (st, [])))
