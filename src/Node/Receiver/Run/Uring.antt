-- ===== src/Node/Receiver/Run/Uring.antt =====
-- The passes of `io_uring_loop` of `Receiver` in src/node/receiver.rs, and its three loops.
use nperf.Base.{
  ℕ, ◌%◌, Bool, true, false, not, List, [], ◌∷◌, Option, none, some, if◌then◌else◌, add64, add32,
  sub32, u32_mod, Outcome, ok, err, fault, Error, eagain, init_message_received,
  last_message_received, invalid_uring_mode_receiver, ◌>>=◌,
}
use nperf.Config.{UringMode, zerocopy, provided_buffer, multishot}
use nperf.Config.Floats.{F64, Floats}
use nperf.Buffer.PacketBuffer.{get_pool_inflight}
use nperf.Statistic
use nperf.Statistic.{Statistic, add}
use nperf.Uring.Submit.{
  RingAnswers, record_slot, fill_sq_and_submit_normal, fill_sq_and_submit_provided,
  fill_sq_and_submit_multishot,
}
use nperf.Node.Interval.{Clocks, is_due}
use nperf.Node.Receiver.{Receiver}
use nperf.Node.Receiver.Measurements.{all_measurements_finished}
use nperf.Node.Receiver.Completion.{
  Cqe, RecvMsgOut, io_uring_complete_normal, io_uring_complete_provided_buffers,
  io_uring_complete_multishot,
}
use nperf.Node.Receiver.Run.{Running, begin_interval, fold_measurements}

-- One pass: the clocks, that at the messages, which entries the ring takes, what it and the kernel
-- answer, and the completions.
pub record UringPass : Type 0 where
  pub clocks : Clocks
  pub now : F64
  pub accepts : ℕ → Bool
  pub ring : RingAnswers
  pub cqes : List Cqe

-- The loop's state: whether the multishot request is armed, the requests in flight, and the statistic
-- of the ring.
pub record UringRunning : Type 0 where
  pub running : Running
  pub armed : Bool
  pub amount_inflight : ℕ
  pub ring_statistic : Statistic

abbrev pub with_statistic : Statistic → UringRunning → UringRunning
with_statistic s u = record u { running = record u.running { statistic = s } }

abbrev pub with_receiver : Receiver → UringRunning → UringRunning
with_receiver r u = record u { running = record u.running { receiver = r } }

abbrev pub count_call : UringRunning → UringRunning
count_call u =
    let s = u.running.statistic in
    with_statistic (record s { amount_io_model_calls = add64 s.amount_io_model_calls 1 }) u

-- The slot of the requests in flight, and the count of the passes.
abbrev pub record_inflight : UringRunning → Outcome UringRunning
record_inflight u =
    record_slot u.amount_inflight u.running.statistic.uring_inflight_utilization >>= λ slots. ok (
      count_call
        (with_statistic (record u.running.statistic { uring_inflight_utilization = slots }) u))

-- The result of a pass: whether the loop is left, and the state.
abbrev pub Passed : Type 0
Passed = Outcome Bool × UringRunning

-- `?`
abbrev pub and_then {ℓ} : {A : Type ℓ} → Outcome A → UringRunning → (A → Passed) → Passed
and_then (ok a) u f = f a
and_then (err e) u f = (err e, u)
and_then (fault x) u f = (fault x, u)

-- The match on an unsuccessful completion.
abbrev pub after_error : Error → UringRunning → Passed
after_error init_message_received u = (ok false, u)
after_error last_message_received u =
    (ok (all_measurements_finished u.running.receiver.measurements), u)
after_error eagain u =
    let s = u.running.statistic in
    (ok false, with_statistic (record s { amount_eagain = add64 s.amount_eagain 1 }) u)
after_error e u = (err e, u)

-- `amount_inflight -= completed`
abbrev pub after_completion : Outcome ℕ → UringRunning → Passed
after_completion (ok completed) u =
    (ok false, record u { amount_inflight = sub32 u.amount_inflight completed })
after_completion (err e) u = after_error e u
after_completion (fault x) u = (fault x, u)

abbrev pub after_multishot : Outcome Bool → UringRunning → Passed
after_multishot (ok armed) u =
    let s = u.running.statistic in
    let canceled =
      if not armed
      then record s { uring_canceled_multishot = add64 s.uring_canceled_multishot 1 }
      else s in
    (ok false, record (with_statistic canceled u) { armed = armed })
after_multishot (err e) u = after_error e u
after_multishot (fault x) u = (fault x, u)

abbrev pub submitted : ℕ → Statistic → UringRunning → UringRunning
submitted n ring u = record u { amount_inflight = add32 u.amount_inflight n; ring_statistic = ring }

module _ (fl : Floats) where
  -- The statistic of the ring is part of the interval, and reset with it.
  unfoldable pub check_interval : Clocks → UringRunning → Outcome UringRunning
  unfolding fold_measurements
  check_interval c u =
      if is_due fl c.due u.running.receiver.statistic_interval
      then (fold_measurements fl u.running >>= λ t. add fl t u.ring_statistic >>= λ whole.
          ok (record u {
            running = begin_interval fl c u.running whole;
            ring_statistic = Statistic.new u.running.receiver.parameter c.new_unix;
          }))
      else ok u

  module _ (grow : ℕ → ℕ → ℕ) (more : ℕ → Bool) (provided : ℕ → ℕ → List ℕ)
      (parse : ℕ → ℕ → Option RecvMsgOut) where
    abbrev pub complete_multishot : UringPass → UringRunning → Passed
    complete_multishot p u =
        let (o, r) =
          io_uring_complete_multishot fl p.now more parse p.cqes true u.running.receiver in
        after_multishot o (with_receiver r u)

    -- The request goes first, and its number is not used.
    unfoldable pub multishot_pass : UringPass → UringRunning → Passed
    unfolding check_interval
    multishot_pass p u =
        let u = count_call u in
        and_then (fill_sq_and_submit_multishot p.accepts p.ring u.armed u.ring_statistic) u λ q.
          let u = record u { ring_statistic = q.1 } in
          and_then (check_interval p.clocks u) u λ v. complete_multishot p v

    abbrev pub complete_provided : UringPass → UringRunning → Passed
    complete_provided p u =
        let (o, s, r) =
          io_uring_complete_provided_buffers fl p.now provided p.cqes 0 u.running.statistic
            u.running.receiver in
        after_completion o (with_receiver r (with_statistic s u))

    unfoldable pub provided_pass : UringPass → UringRunning → Passed
    unfolding check_interval
    provided_pass p u = and_then (record_inflight u) u λ u.
        and_then (check_interval p.clocks u) u λ u.
          and_then
            (fill_sq_and_submit_provided p.accepts p.ring
              u.running.receiver.parameter.uring_parameter u.amount_inflight u.ring_statistic)
            u λ q. complete_provided p (submitted q.0 q.1 u)

    abbrev pub complete_normal : UringPass → UringRunning → Passed
    complete_normal p u =
        let (o, r) = io_uring_complete_normal fl p.now grow p.cqes u.running.receiver in
        after_completion o (with_receiver r u)

    -- What the submission leaves of the buffers stays also where it fails.
    abbrev pub fill_normal : UringPass → UringRunning → Passed
    fill_normal p u =
        let r = u.running.receiver in
        let f =
          fill_sq_and_submit_normal grow p.accepts p.ring r.parameter.uring_parameter
            (get_pool_inflight r.packet_buffer % u32_mod) r.packet_buffer u.ring_statistic in
        let v = with_receiver (record r { packet_buffer = f.buffers }) u in
        and_then f.requests v λ n. complete_normal p (submitted n f.statistic v)

    unfoldable pub normal_pass : UringPass → UringRunning → Passed
    unfolding check_interval
    normal_pass p u =
        and_then (record_inflight u) u
          λ u. and_then (check_interval p.clocks u) u λ u. fill_normal p u

    unfoldable pub uring_pass : UringMode → UringPass → UringRunning → Passed
    unfolding multishot_pass provided_pass normal_pass
    uring_pass multishot p u = multishot_pass p u
    uring_pass provided_buffer p u = provided_pass p u
    uring_pass UringMode.normal p u = normal_pass p u
    uring_pass zerocopy p u = (err invalid_uring_mode_receiver, u)

    -- `return Ok(statistic + io_uring_instance.get_statistic())`
    abbrev pub leave : UringRunning → Option (Outcome (Unit {0})) × Running
    leave u =
        let x = u.running in
        elim (add fl x.statistic u.ring_statistic) [
          | ok s ↦ (some (ok tt), record x { statistic = s })
          | err e ↦ (some (err e), x)
          | fault f ↦ (some (fault f), x)
        ]

    unfoldable pub uring_loop :
        UringMode → List UringPass → UringRunning → Option (Outcome (Unit {0})) × Running
    unfolding uring_pass
    uring_loop m [] u = (none, u.running)
    uring_loop m (p ∷ ps) u =
        let (left, v) = uring_pass m p u in
        let rest = uring_loop m ps v in
        elim left [
          | ok true ↦ leave v
          | ok false ↦ rest
          | err e ↦ (some (err e), v.running)
          | fault f ↦ (some (fault f), v.running)
        ]
