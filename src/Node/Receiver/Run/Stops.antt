-- ===== src/Node/Receiver/Run/Stops.antt =====
-- When the loop of `Receiver::run` of src/node/receiver.rs is left.
use nperf.Base.{
  ℕ, ◌≡◌, List, take, Option, none, some, get_elem?, Outcome, ok, err, fault, Fault, Error, eagain,
  timeout, last_message_received,
}
use nperf.Config.{IoModel}
use nperf.Config.Floats.{Floats}
use nperf.Net.Socket.{Answer}
use nperf.Statistic.{Measurement}
use nperf.Node.Receiver.Measurements.Arrivals.{IsFinished}
use nperf.Node.Receiver.Recv.{recv_messages, io_wait}
use nperf.Node.Receiver.Run.{Pass, Running, count_syscall, check_interval, recv_loop}

-- Every measurement that has begun has got its LAST message.
abbrev pub AllFinished : Running → Type 0
AllFinished x =
    (i : ℕ) (m : Measurement) → get_elem? x.receiver.measurements i ≡ some m → IsFinished m

-- Why a receiving call with the result `o` leaves the loop with `x`.
pub data Reason (m : IoModel) (ready : Answer) (x : Running) : Outcome (Unit {0}) → Type 0 where
  timed_out : io_wait m ready ≡ err timeout → Reason m ready x (err eagain)
  all_finished : AllFinished x → Reason m ready x (err last_message_received)

module _ (fl : Floats) where
  -- A pass from `w` leaves the loop with `x`: it receives in the state `y`, after the interval was checked.
  pub record Leaves (m : IoModel) (p : Pass) (w x : Running) : Type 0 where
    pub y : Running
    pub checked : check_interval fl p.clocks (count_syscall w) ≡ ok y
    pub receiver : x.receiver ≡ (recv_messages fl p.reception p.now y.receiver).1
    pub reason : Reason m p.ready x (recv_messages fl p.reception p.now y.receiver).0

  -- How the loop from `w` ends: it was left in one of the passes, after all before it went on.
  pub data Stops (m : IoModel) (ps : List Pass) (w : Running)
      : Option (Outcome (Unit {0})) → Running → Type 0 where
    going : (x : Running) → Stops m ps w none x
    left_by :
        (i : ℕ) (p : Pass) (x : Running)
        → get_elem? ps i ≡ some p
        → (recv_loop fl m (take i ps) w).0 ≡ none
        → Leaves m p (recv_loop fl m (take i ps) w).1 x
        → Stops m ps w (some (ok tt)) x
    failed_by : (e : Error) (x : Running) → Stops m ps w (some (err e)) x
    panicked_by : (f : Fault) (x : Running) → Stops m ps w (some (fault f)) x
