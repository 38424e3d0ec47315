-- ===== src/Node/Receiver.antt =====
-- src/node/receiver.rs: the receiver of one thread. The answers of the kernel, what it writes to
-- the buffers, and the clock are arguments.
pub mod Measurements
pub mod Recv
pub mod Completion
pub mod Run
use nperf.Base.{ℕ, List, Option, Outcome, Fault, ok, err, fault}
use nperf.Config.{Parameter, ExchangeFunction}
use nperf.Buffer.PacketBuffer.{PacketBuffer, Mmsghdr}
use nperf.Net.Socket.{Socket, Answer}
use nperf.Statistic.{Measurement}
use nperf.Statistic.Interval.{StatisticInterval}

pub record Receiver : Type 0 where
  pub packet_buffer : PacketBuffer
  pub socket : Socket
  pub io_uring_sqpoll_fd : Option ℕ
  pub next_packet_id : ℕ
  pub parameter : Parameter
  pub measurements : List Measurement
  pub statistic_interval : StatisticInterval
  pub exchange_function : ExchangeFunction

-- One receiving call: the answer of the kernel, and what it made of the buffers.
pub record Reception : Type 0 where
  pub answer : Answer
  pub wrote : List Mmsghdr → List Mmsghdr

abbrev pub received : Reception → Receiver → Receiver
received k r = record r { packet_buffer = record b { mmsghdr_vec = k.wrote b.mmsghdr_vec } }
  where
    b : PacketBuffer
    b = r.packet_buffer
