-- ===== src/Tests/Rings.antt =====
-- The theorems on the rings at concrete inputs.
use nperf.Base.{◌≡◌, [], ◌∷◌, false, true, arith, none, ok, pos, negsuc}
use nperf.Uring.{submitted}
use nperf.Uring.Submit.{RingAnswers}
use nperf.Uring.Modes.{
  RingMaker, IoUringMultishot, IoUringProvidedBuffer, new_multishot, new_provided_buffer,
}
use nperf.Uring.Modes.Rooms.{IsRoomy, new-IsRoomy}
use nperf.Statistic
use nperf.Node.Sender.Run.Uring.{UringRound, UringSender}
use nperf.Node.Sender.Run.Settles.{Settles}
use nperf.Tests.{fresh, parameter}
use nperf.Tests.Runs.{runner, seconds}

abbrev maker : RingMaker
maker = record { build = λ s n. true; probe = none; registers = λ r. true }

new-IsRoomy_example :
    ((i : IoUringMultishot)
      → new_multishot maker 0 parameter none ≡ ok i
      → IsRoomy parameter i.buf_ring)
    × ((i : IoUringProvidedBuffer)
        → new_provided_buffer maker 0 parameter none ≡ ok i
        → IsRoomy parameter i.buf_ring)
new-IsRoomy_example =
    new-IsRoomy maker 0 parameter none
      (record {
        burst = omega arith;
        buffers = omega arith;
        ring = omega arith;
        ring_pos = omega arith;
      })
      (omega arith)

-- A request is sent in the first pass, and one is dropped by EAGAIN in the second.
abbrev answers : RingAnswers
answers = record {
  view = record { cq_empty = true; sq_capacity = 1; sq_len = 0 };
  submitter = record {
    submit_and_wait = λ n. submitted 1;
    submit_with_args = λ n timeout. submitted 1;
  };
  sq_len_after = 0;
  cq_len_after = 1;
}

abbrev sent : UringRound
sent = record {
  clocks = seconds 1;
  accepts = λ k. true;
  ring = answers;
  cqes = record { result = pos 24; user_data = 0; flags = 0 } ∷ [];
}

abbrev dropped : UringRound
dropped = record {
  clocks = seconds 2;
  accepts = λ k. true;
  ring = answers;
  cqes = record { result = negsuc 10; user_data = 0; flags = 0 } ∷ [];
}

abbrev uring_sender : UringSender
uring_sender = record {
  sender = runner;
  amount_inflight = 0;
  is_zc = false;
  ring_statistic = fresh;
}
