-- ===== src/Node/Sender/Run/Uring.antt =====
-- `io_uring_loop` of `Sender` in src/node/sender.rs, and `run` with either loop.
use nperf.Base.{
  ℕ, Bool, List, [], ◌∷◌, Option, none, some, leb, if◌then◌else◌, add64, sub64, mul64, Outcome, ok,
  err, fault, eagain, invalid_uring_mode_sender, ◌>>=◌,
}
use nperf.Config.{IoModel, is_io_uring, UringMode, zerocopy, provided_buffer, multishot}
use nperf.Config.Floats.{F64, Floats}
use nperf.Net.Header.{init}
use nperf.Net.Socket.{Answer}
use nperf.Buffer.Msghdr.{Msghdr}
use nperf.Buffer.PacketBuffer.{get_pool_inflight}
use nperf.Statistic
use nperf.Statistic.{Statistic}
use nperf.Statistic.Interval
use nperf.Uring.Modes.{RingMaker, new_send}
use nperf.Uring.Submit.{RingAnswers, record_slot, Filled, fill_sq_and_submit_send}
use nperf.Node.Interval.{Clocks, elapsed, as_secs}
use nperf.Node.Receiver.Completion.{Cqe}
use nperf.Node.Sender.{
  Sender, io_uring_complete_send, io_uring_complete_send_zc, send_control_message,
}
use nperf.Node.Sender.Run.{Round, check_interval, send_loop, conclude_run}

-- One pass: the clocks, which entries the ring takes, what it and the kernel answer, and the
-- completions that are there afterwards.
pub record UringRound : Type 0 where
  pub clocks : Clocks
  pub accepts : ℕ → Bool
  pub ring : RingAnswers
  pub cqes : List Cqe

-- `IoUringSend`: its mode, and its own statistic, beside the sender and the requests in flight.
pub record UringSender : Type 0 where
  pub sender : Sender
  pub amount_inflight : ℕ
  pub is_zc : Bool
  pub ring_statistic : Statistic

abbrev pub UringSent : Type 0
UringSent = Outcome (Unit {0}) × UringSender

-- The slot of the requests in flight, and the count of the passes.
abbrev pub record_inflight : UringSender → Outcome Sender
record_inflight u =
    record_slot u.amount_inflight u.sender.statistic.uring_inflight_utilization >>= λ slots.
    ok (record u.sender {
      statistic = record u.sender.statistic {
        uring_inflight_utilization = slots;
        amount_io_model_calls = add64 u.sender.statistic.amount_io_model_calls 1;
      };
    })

-- The match on the completion.
abbrev pub after_complete : Outcome ℕ × Sender → UringSender → UringSent
after_complete (ok completed, s) u =
    (ok tt, record u { sender = s; amount_inflight = sub64 u.amount_inflight completed })
after_complete (err eagain, s) u = (
  ok tt,
  record u {
    sender = record s {
      statistic = record s.statistic { amount_eagain = add64 s.statistic.amount_eagain 1 };
    };
  },
)
after_complete (err e, s) u = (err e, record u { sender = s })
after_complete (fault x, s) u = (fault x, record u { sender = s })

-- What the submission leaves of the sender.
abbrev pub filled_sender : Filled → UringSender → UringSender
filled_sender f u = record u {
  sender = record u.sender { packet_buffer = f.buffers };
  ring_statistic = f.statistic;
}

abbrev pub count_submitted : ℕ → UringSender → UringSender
count_submitted submitted u = record u {
  amount_inflight = add64 u.amount_inflight submitted;
  sender = record u.sender {
    next_packet_id =
        add64 u.sender.next_packet_id
          (mul64 submitted u.sender.packet_buffer.packets_amount_per_msghdr);
  };
}

-- All that a run reads: the clocks of its begin and end, and the passes of either loop.
pub record Environment : Type 0 where
  pub init_answer : Msghdr → Answer
  pub last_answer : Msghdr → Answer
  pub start_time : ℕ
  pub interval_start : ℕ
  pub interval_unix : F64
  pub ring_unix : F64
  pub maker : RingMaker
  pub rounds : List Round
  pub uring_rounds : List UringRound
  pub end_instant : ℕ
  pub end_unix : F64
  pub new_unix : F64
  pub final_unix : F64

module _ (more notif : ℕ → Bool) (grow : ℕ → ℕ → ℕ) where
  unfoldable pub uring_complete : List Cqe → UringSender → UringSent
  uring_complete cqes u =
      after_complete
        (if u.is_zc
          then io_uring_complete_send_zc more notif grow cqes u.sender
          else io_uring_complete_send cqes u.sender)
        u

  -- `?` on the submission, and the completion after it.
  abbrev pub after_fill : List Cqe → Filled → UringSender → UringSent
  after_fill cqes f u = elim f.requests [
    | err e ↦ (err e, filled_sender f u)
    | fault x ↦ (fault x, filled_sender f u)
    | ok submitted ↦ uring_complete cqes (count_submitted submitted (filled_sender f u))
  ]

  module _ (fl : Floats) where
    abbrev pub fill : UringRound → UringSender → Filled
    fill r u =
        let s = u.sender in
        fill_sq_and_submit_send r.accepts r.ring s.parameter.uring_parameter u.is_zc
          (get_pool_inflight s.packet_buffer) s.next_packet_id s.packet_buffer u.ring_statistic

    abbrev pub fill_and_complete : UringRound → UringSender → UringSent
    fill_and_complete r u = after_fill r.cqes (fill r u) u

    unfoldable pub uring_round : UringRound → UringSender → UringSent
    unfolding uring_complete check_interval
    uring_round r u = elim (record_inflight u) [
      | err e ↦ (err e, u)
      | fault x ↦ (fault x, u)
      | ok s ↦ fill_and_complete r (record u { sender = check_interval fl r.clocks s })
    ]

    -- As `send_loop`: none where the passes are used up.
    unfoldable pub uring_loop :
        ℕ → List UringRound → UringSender → Option (Outcome (Unit {0})) × UringSender
    unfolding uring_round
    uring_loop start [] u = (none, u)
    uring_loop start (r ∷ rs) u =
        let t = uring_round r u in
        let rest = uring_loop start rs t.1 in
        if leb u.sender.run_time_length (as_secs (elapsed start r.clocks.test))
        then (some (ok tt), u)
        else elim t.0 [
          | ok v ↦ rest
          | err e ↦ (some (err e), t.1)
          | fault x ↦ (some (fault x), t.1)
        ]

    -- The ring and its statistic are dropped at the end.
    unfoldable pub io_uring_loop :
        RingMaker → F64 → ℕ → List UringRound → Sender → Option (Outcome (Unit {0})) × Sender
    unfolding uring_loop
    io_uring_loop k now start rs s =
        let p = s.parameter.uring_parameter in
        let made : Option (Outcome (Unit {0})) × Sender =
          elim (new_send k now s.parameter s.io_uring_sqpoll_fd) [
            | err e ↦ (some (err e), s)
            | fault x ↦ (some (fault x), s)
            | ok i ↦
                let u : UringSender = record {
                  sender = s;
                  amount_inflight = 0;
                  is_zc = i.zerocopy;
                  ring_statistic = i.statistic;
                } in
                let (left, v) = uring_loop start rs u in (left, v.sender)
          ] in
        elim p.uring_mode [
          | UringMode.normal ↦ made
          | zerocopy ↦ made
          | provided_buffer ↦ (some (err invalid_uring_mode_sender), s)
          | multishot ↦ (some (err invalid_uring_mode_sender), s)
        ]

    abbrev pub run_loop : IoModel → Environment → Sender → Option (Outcome (Unit {0})) × Sender
    run_loop m w s =
        if is_io_uring m
        then io_uring_loop w.maker w.ring_unix w.start_time w.uring_rounds s
        else send_loop fl m w.start_time w.rounds s

    -- From the end of the loop.
    abbrev pub finish_run :
        Environment
        → Option (Outcome (Unit {0})) × Sender
        → Option (Outcome (Statistic × List Statistic))
    finish_run w (none, x) = none
    finish_run w (some (err e), x) = some (err e)
    finish_run w (some (fault f), x) = some (fault f)
    finish_run w (some (ok u), x) =
        some (conclude_run fl w.end_instant w.end_unix w.new_unix w.final_unix w.last_answer x)

    -- The intervals start with the loop.
    abbrev pub started : Environment → Sender → Sender
    started w s = record s {
      statistic_interval =
          Statistic.Interval.start fl none w.interval_start w.interval_unix s.statistic_interval;
    }

    -- `Sender::run`; none where the passes are used up.
    unfoldable pub run :
        IoModel → Environment → Sender → Option (Outcome (Statistic × List Statistic))
    unfolding io_uring_loop
    run m w s = elim (send_control_message fl init w.init_answer s) [
      | err e ↦ some (err e)
      | fault x ↦ some (fault x)
      | ok u ↦ finish_run w (run_loop m w (started w s))
    ]
