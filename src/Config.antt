-- ===== src/Config.antt =====
-- The settings of a measurement: the option enums of src/util/mod.rs, src/util/statistic.rs and
-- src/io_uring/mod.rs, SocketOptions of src/net/socket_options.rs, Parameter and UringParameter of
-- src/util/statistic.rs, and the constants of src/lib.rs.
use Prim.Native.String.{String}
use nperf.Base.{ℕ, ◌-◌, Bool, true, false, Option}
pub mod Floats
use Floats.{F64}

pub data NPerfMode : Type 0 where
  receiver sender : NPerfMode

pub data ExchangeFunction : Type 0 where
  normal msg mmsg : ExchangeFunction

pub data IoModel : Type 0 where
  select poll busy_waiting io_uring : IoModel

pub data OutputFormat : Type 0 where
  text json file : OutputFormat

pub data MultiplexPort : Type 0 where
  individual sharing sharding : MultiplexPort

pub data SimulateConnection : Type 0 where
  single multiple : SimulateConnection

pub data UringSqFillingMode : Type 0 where
  topup topup_no_wait syscall : UringSqFillingMode

pub data UringTaskWork : Type 0 where
  default coop defer coop_defer : UringTaskWork

pub data UringMode : Type 0 where
  normal zerocopy provided_buffer multishot : UringMode

-- The derived tests for equality that the code uses.
abbrev pub is_sender : NPerfMode → Bool
is_sender sender = true
is_sender receiver = false

abbrev pub is_receiver : NPerfMode → Bool
is_receiver receiver = true
is_receiver sender = false

abbrev pub is_individual : MultiplexPort → Bool
is_individual individual = true
is_individual _ = false

abbrev pub is_sharing : MultiplexPort → Bool
is_sharing sharing = true
is_sharing _ = false

abbrev pub is_sharding : MultiplexPort → Bool
is_sharding sharding = true
is_sharding _ = false

abbrev pub is_single : SimulateConnection → Bool
is_single single = true
is_single multiple = false

abbrev pub is_io_uring : IoModel → Bool
is_io_uring io_uring = true
is_io_uring _ = false

abbrev pub is_topup_no_wait : UringSqFillingMode → Bool
is_topup_no_wait topup_no_wait = true
is_topup_no_wait _ = false

abbrev pub is_default_work : UringTaskWork → Bool
is_default_work default = true
is_default_work _ = false

abbrev pub is_normal_mode : UringMode → Bool
is_normal_mode UringMode.normal = true
is_normal_mode _ = false

abbrev pub is_zerocopy : UringMode → Bool
is_zerocopy zerocopy = true
is_zerocopy _ = false

abbrev pub is_multishot : UringMode → Bool
is_multishot multishot = true
is_multishot _ = false

abbrev pub is_provided_buffer : UringMode → Bool
is_provided_buffer provided_buffer = true
is_provided_buffer _ = false

-- Sizes and rates are numbers below the width of their type.
pub record SocketOptions : Type 0 where
  pub nonblocking : Bool
  pub ip_fragmentation : Bool
  pub reuseport : Bool
  pub gso : Option ℕ
  pub gro : Bool
  pub socket_pacing_rate : ℕ
  pub recv_buffer_size : Option ℕ
  pub send_buffer_size : Option ℕ

pub record UringParameter : Type 0 where
  pub uring_mode : UringMode
  pub ring_size : ℕ
  pub burst_size : ℕ
  pub buffer_size : ℕ
  pub sqpoll : Bool
  pub sqpoll_shared : Bool
  pub sq_filling_mode : UringSqFillingMode
  pub task_work : UringTaskWork
  pub record_utilization : Bool

-- The address is the u32 of its octets; a path is its text.
pub record Parameter : Type 0 where
  pub test_name : String
  pub run_name : String
  pub repetition_id : ℕ
  pub mode : NPerfMode
  pub ip : ℕ
  pub amount_threads : ℕ
  pub output_interval : F64
  pub output_format : OutputFormat
  pub output_file_path : String
  pub io_model : IoModel
  pub test_runtime_length : ℕ
  pub mss : ℕ
  pub datagram_size : ℕ
  pub packet_buffer_size : ℕ
  pub socket_options : SocketOptions
  pub exchange_function : ExchangeFunction
  pub multiplex_port : MultiplexPort
  pub multiplex_port_receiver : MultiplexPort
  pub simulate_connection : SimulateConnection
  pub core_affinity : Bool
  pub numa_affinity : Bool
  pub uring_parameter : UringParameter

-- `Parameter::new`
abbrev pub new :
    String
    → String
    → ℕ
    → NPerfMode
    → ℕ
    → ℕ
    → F64
    → OutputFormat
    → String
    → IoModel
    → ℕ
    → ℕ
    → ℕ
    → ℕ
    → SocketOptions
    → ExchangeFunction
    → MultiplexPort
    → MultiplexPort
    → SimulateConnection
    → Bool
    → Bool
    → UringParameter
    → Parameter
new test_name run_name repetition_id mode ip amount_threads output_interval output_format
      output_file_path io_model test_runtime_length mss datagram_size packet_buffer_size
      socket_options exchange_function multiplex_port multiplex_port_receiver simulate_connection
      core_affinity numa_affinity uring_parameter =
    record {
      test_name = test_name;
      run_name = run_name;
      repetition_id = repetition_id;
      mode = mode;
      ip = ip;
      amount_threads = amount_threads;
      output_interval = output_interval;
      output_format = output_format;
      output_file_path = output_file_path;
      io_model = io_model;
      test_runtime_length = test_runtime_length;
      mss = mss;
      datagram_size = datagram_size;
      packet_buffer_size = packet_buffer_size;
      socket_options = socket_options;
      exchange_function = exchange_function;
      multiplex_port = multiplex_port;
      multiplex_port_receiver = multiplex_port_receiver;
      simulate_connection = simulate_connection;
      core_affinity = core_affinity;
      numa_affinity = numa_affinity;
      uring_parameter = uring_parameter;
    }

abbrev pub default_uring_ring_size : ℕ
default_uring_ring_size = 16

abbrev pub uring_buffer_size_multiplicator : ℕ
uring_buffer_size_multiplicator = 4

abbrev pub uring_burst_size_dividend : ℕ
uring_burst_size_dividend = 4

abbrev pub uring_max_ring_size : ℕ
uring_max_ring_size = 2048

abbrev pub uring_additional_buffer_length : ℕ
uring_additional_buffer_length = 40

abbrev pub length_msghdr_control_message_buffer : ℕ
length_msghdr_control_message_buffer = 24

abbrev pub max_test_id : ℕ
max_test_id = 1024

abbrev pub max_udp_datagram_size : ℕ
max_udp_datagram_size = 65535 - 8 - 20

-- In milliseconds.
abbrev pub wait_control_message : ℕ
wait_control_message = 400
