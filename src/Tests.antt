-- ===== src/Tests.antt =====
-- Concrete inputs for the theorems of the library: a statistic, buffers with headers, a small pool.
use Prim.Native.String.{String}
use nperf.Base.{
  ℕ, ◌+◌, ◌-◌, ◌*◌, ◌/◌, ◌<◌, ◌≤◌, ◌≡◌, refl, subst, Bool, true, false, List, [], ◌∷◌, Option, none,
  some, arith, replicate, length, ltb, leb, ◌==◌, min, max,
}
use nperf.Config.{
  Parameter, UringParameter, SocketOptions, NPerfMode, receiver, ExchangeFunction, mmsg, IoModel,
  io_uring, OutputFormat, text, MultiplexPort, individual, SimulateConnection, multiple,
  UringSqFillingMode, topup, UringTaskWork, UringMode,
}
use nperf.Config.Floats.{Floats}
use nperf.Net.Header.{MessageType, measurement, serialize, Slice}
use nperf.Net.Header
use nperf.Net.Header.Bytes.{write_at, length-write_at}
use nperf.Net.Header.RoundTrip.{Holds, write_at-serialize-Holds}
use nperf.Net.Socket.{Socket}
use nperf.Statistic
use nperf.Statistic.{Statistic}
use nperf.Statistic.Interval.{StatisticInterval}
use nperf.Buffer.Msghdr.{Msghdr, null}
use nperf.Buffer.PacketBuffer.{PacketBuffer, Mmsghdr}
use nperf.Buffer.PacketBuffer.Ids.{IsFilled}
use nperf.Node.Receiver.{Receiver}
use nperf.Node.Sender.{Sender}
pub mod Packets
pub mod Pools
pub mod Totals
pub mod Nodes
pub mod Settings
pub mod Outputs
pub mod Programs
pub mod Rings
pub mod Runs
pub mod Transfers
pub mod Receptions
pub mod Threads

-- Whole numbers in place of floating-point ones.
abbrev pub whole : Floats
whole = record {
  of_u64 = λ n. n;
  of_i64 = λ n. n;
  to_u64 = λ n. n;
  add = λ a b. a + b;
  sub = λ a b. a - b;
  mul = λ a b. a * b;
  div = λ a b. a / b;
  fmin = min;
  fmax = max;
  feq = λ a b. a == b;
  flt = ltb;
  fle = leb;
  abs = λ a. a;
  floor = λ a. a;
  ceil = λ a. a;
  round = λ a. a;
  billionth = 0;
  display = λ n. n ∷ [];
}

abbrev pub small_ring : UringParameter
small_ring = record {
  uring_mode = UringMode.normal;
  ring_size = 1;
  burst_size = 1;
  buffer_size = 4;
  sqpoll = false;
  sqpoll_shared = false;
  sq_filling_mode = topup;
  task_work = UringTaskWork.default;
  record_utilization = false;
}

abbrev pub options : SocketOptions
options = record {
  nonblocking = true;
  ip_fragmentation = true;
  reuseport = false;
  gso = none;
  gro = false;
  socket_pacing_rate = 0;
  recv_buffer_size = none;
  send_buffer_size = none;
}

abbrev pub parameter : Parameter
parameter = record {
  test_name = "test";
  run_name = "run";
  repetition_id = 1;
  mode = receiver;
  ip = 0;
  amount_threads = 2;
  output_interval = 2;
  output_format = text;
  output_file_path = "nperf-output.csv";
  io_model = io_uring;
  test_runtime_length = 10;
  mss = 24;
  datagram_size = 24;
  packet_buffer_size = 4;
  socket_options = options;
  exchange_function = mmsg;
  multiplex_port = individual;
  multiplex_port_receiver = individual;
  simulate_connection = multiple;
  core_affinity = false;
  numa_affinity = false;
  uring_parameter = small_ring;
}

abbrev pub fresh : Statistic
fresh = Statistic.new parameter 0

-- A header of test 7 in memory of 24 bytes.
abbrev pub memory : ℕ → List ℕ
memory id = write_at (replicate 24 0) 0 (serialize (Header.new measurement 7 id))

pub memory-Holds : (id : ℕ) → id < 100 → Holds (memory id) 0 measurement 7 id
memory-Holds id h =
    write_at-serialize-Holds measurement 7 id (replicate 24 0) 0 (omega arith) (omega arith)
      (omega arith)

abbrev pub message : ℕ → Msghdr
message id = record {
  msg_name = null;
  iov_base = memory id;
  iov_len = 24;
  msg_iovlen = 1;
  msg_control = [];
  msg_controllen = 24;
  msg_flags = 0;
}

pub message-IsFilled : (id : ℕ) → id < 100 → IsFilled 1 24 measurement 7 (message id)
message-IsFilled id h = record {
  size = omega arith;
  inside =
      omega (arith, length-write_at (replicate 24 0) 0 (serialize (Header.new measurement 7 id)));
  fits = λ j l. omega arith;
  small = omega arith;
  headers = λ j l. (
    id,
    let e : 0 ≡ j * 24 = omega arith in
        subst (λ k. Holds (memory id) k measurement 7 id) e (memory-Holds id h),
  );
}

abbrev pub mmsghdr : ℕ → Mmsghdr
mmsghdr id = record { msg_hdr = message id; msg_len = 24 }

-- Two of four buffers in flight.
abbrev pub buffers : PacketBuffer
buffers = record {
  mmsghdr_vec = mmsghdr 0 ∷ mmsghdr 1 ∷ mmsghdr 2 ∷ mmsghdr 3 ∷ [];
  datagram_size = 24;
  packets_amount_per_msghdr = 1;
  index_pool = 1 ∷ 0 ∷ [];
  pool_capacity = 4;
}

abbrev pub a_socket : Socket
a_socket = record { sock_addr_in = none; sock_addr_out = none; socket = 3 }

abbrev pub interval : StatisticInterval
interval = record {
  interval_id = 1;
  output_interval = 2;
  last_send_instant = 0;
  last_send_timestamp = 0;
  total_interval_outputs = 5;
  amount_interval_outputs = 0;
  statistics = [];
}

abbrev pub a_receiver : Receiver
a_receiver = record {
  packet_buffer = buffers;
  socket = a_socket;
  io_uring_sqpoll_fd = none;
  next_packet_id = 2;
  parameter = parameter;
  measurements = [];
  statistic_interval = interval;
  exchange_function = mmsg;
}

abbrev pub a_sender : Sender
a_sender = record {
  test_id = 7;
  packet_buffer = buffers;
  socket = a_socket;
  parameter = parameter;
  io_uring_sqpoll_fd = none;
  statistic = fresh;
  statistic_interval = interval;
  run_time_length = 10;
  next_packet_id = 40;
  exchange_function = mmsg;
}
