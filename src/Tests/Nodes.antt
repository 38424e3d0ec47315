-- ===== src/Tests/Nodes.antt =====
-- The theorems on the nodes at concrete inputs.
use nperf.Base.{refl, [], arith}
use nperf.Net.Header.{measurement}
use nperf.Net.Socket.{returned}
use nperf.Statistic.{Measurement, new_measurement}
use nperf.Statistic
use nperf.Node.Receiver.Measurements.{parse_message_type}
use nperf.Node.Receiver.Measurements.Arrivals.{Arrives, parse_message_type-Arrives}
use nperf.Node.Sender.{send_messages}
use nperf.Node.Sender.Ids.{Sends, send_messages-Sends}
use nperf.Tests.{a_sender, parameter, whole, message-IsFilled}

-- The kernel sends two of four messages.
send_messages-Sends_example :
    let r = send_messages (returned 2) (λ xs. xs) a_sender in Sends a_sender r.0 r.1
unfolding Statistic.new
send_messages-Sends_example =
    send_messages-Sends measurement 7 (returned 2) (λ xs. xs) a_sender (omega arith)
      (
        message-IsFilled 0 (omega arith),
        (
          message-IsFilled 1 (omega arith),
          (message-IsFilled 2 (omega arith), (message-IsFilled 3 (omega arith), tt)),
        ),
      )
      (omega arith) (omega arith) (omega arith) (λ xs. refl) (λ n e f. ground arith)

parse_message_type-Arrives_example :
    let r = parse_message_type whole measurement 2 50 parameter [] in
    Arrives 2 [] measurement r.0 r.1
parse_message_type-Arrives_example = parse_message_type-Arrives whole measurement 2 50 parameter []
