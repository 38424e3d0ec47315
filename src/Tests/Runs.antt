-- ===== src/Tests/Runs.antt =====
-- The theorems on the runs of a sender at concrete inputs.
use nperf.Base.{ℕ, ◌*◌, ◌≡◌, refl, inl, inr, List, [], ◌∷◌, false, arith, none, some, ok}
use nperf.Config.{mmsg, poll}
use nperf.Net.Header
use nperf.Net.Header.{measurement}
use nperf.Net.Socket
use nperf.Net.Socket.{Socket, returned, failed}
use nperf.Statistic
use nperf.Statistic.{Statistic}
use nperf.Statistic.Interval.{finished}
use nperf.Buffer.Msghdr
use nperf.Buffer.PacketBuffer.Ids.{AllFilled}
use nperf.Node.Interval.{Clocks, nanoseconds}
use nperf.Node.Sender.{Sender}
use nperf.Node.Sender.Run.{Round, send_loop, final_statistic, close_interval}
use nperf.Node.Sender.Run.Accounts.{Kernels}
use nperf.Node.Sender.Run.Passes.{IsSending, LoopEnds, send_loop-LoopEnds}
use nperf.Node.Sender.Run.Final.{final_statistic-next_packet_id}
use nperf.Node.Sender.Run.Uring.{Environment}
use nperf.Tests.{a_sender, a_socket, buffers, fresh, interval, whole, message-IsFilled}

abbrev pub seconds : ℕ → Clocks
seconds n = record {
  test = n * nanoseconds;
  due = n * nanoseconds;
  call = n * nanoseconds;
  call_unix = n;
  new_unix = n;
}

-- The kernel sends two of four messages, then it is not ready, then the time is over.
abbrev partial : Round
partial = record { clocks = seconds 1; answer = returned 2; wrote = λ xs. xs; ready = returned 1 }

abbrev busy : Round
busy = record { clocks = seconds 2; answer = failed 11; wrote = λ xs. xs; ready = returned 1 }

abbrev late : Round
late = record { clocks = seconds 11; answer = returned 4; wrote = λ xs. xs; ready = returned 1 }

abbrev pub rounds : List Round
rounds = partial ∷ busy ∷ late ∷ []

-- A sender without intervals, at its start.
abbrev pub runner : Sender
runner = record a_sender {
  next_packet_id = 0;
  socket = record a_socket {
    sock_addr_out = some (record { octets = (127, 0, 0, 1); port = 45001 });
  };
  statistic_interval = record interval { output_interval = 0; total_interval_outputs = 0 };
}

buffers-AllFilled : AllFilled 1 24 measurement 7 buffers.mmsghdr_vec
buffers-AllFilled = (
  message-IsFilled 0 (omega arith),
  (
    message-IsFilled 1 (omega arith),
    (message-IsFilled 2 (omega arith), (message-IsFilled 3 (omega arith), tt)),
  ),
)

pub runner-IsSending : IsSending whole measurement 7 4 mmsg 1 24 0 runner
unfolding Statistic.new
runner-IsSending = record {
  loaded = record {
    function = refl;
    some_buffer = omega arith;
    few = omega arith;
    buffers = refl;
    packets = refl;
    sizes = refl;
    filled = buffers-AllFilled;
  };
  accounted = record { bound = omega arith; exact = inl refl; bare = inr refl };
  ids = omega arith;
}

pub rounds-Kernels : Kernels 4 mmsg rounds
rounds-Kernels = (
  (λ xs. refl, λ n e q. ground arith),
  ((λ xs. refl, λ n e q. ground arith), ((λ xs. refl, λ n e q. ground arith), tt)),
)

send_loop-LoopEnds_example :
    let r = send_loop whole poll 0 rounds runner in LoopEnds whole measurement 7 4 mmsg 1 24 r.0 r.1
send_loop-LoopEnds_example =
    send_loop-LoopEnds whole measurement 7 4 mmsg 1 24 poll 0 0 rounds runner runner-IsSending
      (omega arith) rounds-Kernels

-- Three datagrams in an interval that is still open.
abbrev open_interval : Sender
open_interval = record a_sender {
  next_packet_id = 3;
  statistic = record fresh { amount_datagrams = 3 };
}

final_statistic-next_packet_id_example :
    (st : Statistic) × (final_statistic whole 5 5 (close_interval whole 9 9 open_interval) ≡ ok st)
    × (st.amount_datagrams ≡ 3)
unfolding Statistic.new finished
final_statistic-next_packet_id_example =
    final_statistic-next_packet_id whole false 9 9 5 5 open_interval
      (record { bound = omega arith; exact = inl refl; bare = inl refl }) (inr (refl, refl))
      (omega arith) refl (record { setting = refl; slots = tt }) tt

abbrev pub environment : Environment
environment = record {
  init_answer = λ h. returned 24;
  last_answer = λ h. returned 24;
  start_time = 0;
  interval_start = 0;
  interval_unix = 0;
  ring_unix = 0;
  maker = record { build = λ s n. false; probe = none; registers = λ r. false };
  rounds = rounds;
  uring_rounds = [];
  end_instant = 11 * nanoseconds;
  end_unix = 11;
  new_unix = 11;
  final_unix = 11;
}
