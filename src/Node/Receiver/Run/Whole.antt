-- ===== src/Node/Receiver/Run/Whole.antt =====
-- `io_uring_loop` and `run` of `Receiver` in src/node/receiver.rs.
use nperf.Base.{
  ℕ, List, Option, some, if◌then◌else◌, Outcome, ok, err, fault, invalid_uring_mode_receiver, Bool,
  false, ◌>>=◌,
}
use nperf.Config.{Parameter, IoModel, is_io_uring, UringMode, zerocopy, provided_buffer, multishot}
use nperf.Config.Floats.{F64, Floats}
use nperf.Statistic
use nperf.Statistic.{Statistic}
use nperf.Uring.Modes.{
  RingMaker, Instance, of_normal, of_provided_buffer, of_multishot, new_normal, new_provided_buffer,
  new_multishot, get_statistic,
}
use nperf.Node.Receiver.{Receiver}
use nperf.Node.Receiver.Completion.{RecvMsgOut}
use nperf.Node.Receiver.Run.{Pass, Running, Environment, recv_loop, run_around}
use nperf.Node.Receiver.Run.Uring.{UringPass, UringRunning, uring_loop}

-- The instance of the mode; the zerocopy mode is refused.
unfoldable pub make_instance : RingMaker → F64 → Parameter → Option ℕ → UringMode → Outcome Instance
make_instance k now p fd multishot = new_multishot k now p fd >>= λ i. ok (of_multishot i)
make_instance k now p fd provided_buffer =
    new_provided_buffer k now p fd >>= λ i. ok (of_provided_buffer i)
make_instance k now p fd UringMode.normal = new_normal k now p fd >>= λ i. ok (of_normal i)
make_instance k now p fd zerocopy = err invalid_uring_mode_receiver

module _ (fl : Floats) where
  module _ (grow : ℕ → ℕ → ℕ) (more : ℕ → Bool) (provided : ℕ → ℕ → List ℕ)
      (parse : ℕ → ℕ → Option RecvMsgOut) where
    -- The loop's statistic is a new one.
    unfoldable pub io_uring_loop :
        RingMaker → F64 → List UringPass → Running → Option (Outcome (Unit {0})) × Running
    unfolding make_instance
    io_uring_loop k now ps x =
        let p = x.receiver.parameter in
        let mode = p.uring_parameter.uring_mode in
        elim (make_instance k now p x.receiver.io_uring_sqpoll_fd mode) [
          | err e ↦ (some (err e), x)
          | fault f ↦ (some (fault f), x)
          | ok i ↦
              let u : UringRunning = record {
                running = record x { statistic = Statistic.new p now };
                armed = false;
                amount_inflight = 0;
                ring_statistic = get_statistic i;
              } in
              uring_loop fl grow more provided parse mode ps u
        ]

    -- `Receiver::run`; none where the passes are used up.
    unfoldable pub run :
        IoModel
        → RingMaker
        → F64
        → List Pass
        → List UringPass
        → Environment
        → Receiver
        → Option (Outcome (Statistic × List Statistic))
    unfolding io_uring_loop
    run m k now ps qs w r =
        run_around fl (if is_io_uring m then io_uring_loop k now qs else recv_loop fl m ps) w r
