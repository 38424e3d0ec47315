-- ===== src/Tests/Settings.antt =====
-- The theorem on accepted arguments at concrete ones.
use nperf.Base.{◌≡◌, refl, true, false, none, some, ok}
use nperf.Config.{
  Parameter, sender, text, mmsg, IoModel, individual, UringMode, topup, UringTaskWork,
  SocketOptions,
}
use nperf.Arguments.{
  NPerf, settings, adjust, parse_parameter, parameter_check, parse_socket_options,
  bandwidth_per_thread, buffer_size_of, parse_uring_parameter, is_power_of_two, is_power_from,
  has_more_than_one_decimal, after_dot,
}
use nperf.Net.Parse.{parse_ipv4}
use nperf.Arguments.Accepted.{IsAccepted, parse_parameter-IsAccepted}
use nperf.Tests.{whole}

abbrev pub arguments : NPerf
arguments = record {
  mode = sender;
  ip = "0.0.0.0";
  port = 45001;
  sender_port = 46001;
  run_infinite = false;
  parallel = 2;
  interval = 2;
  time = 10;
  label_test = "test";
  label_run = "run";
  repetition_id = 1;
  output_format = text;
  output_file_path = "nperf-output.csv";
  io_model = IoModel.io_uring;
  exchange_function = mmsg;
  with_mmsg_amount = 1;
  with_mss = 1472;
  with_gsro = false;
  with_gso_buffer = 64768;
  datagram_size = 1472;
  with_ip_frag = false;
  without_non_blocking = false;
  with_socket_buffer = 1;
  bandwidth = 0;
  with_core_affinity = false;
  with_numa_affinity = false;
  multiplex_port = individual;
  multiplex_port_receiver = individual;
  uring_mode = UringMode.normal;
  uring_sqpoll = false;
  uring_sqpoll_shared = true;
  uring_burst_size = 4;
  uring_ring_size = 16;
  uring_sq_mode = topup;
  uring_task_work = UringTaskWork.coop;
  uring_record_utilization = false;
  markdown_help = false;
}

abbrev pub socket_options : SocketOptions
socket_options = record {
  nonblocking = true;
  ip_fragmentation = false;
  reuseport = false;
  gso = none;
  gro = false;
  socket_pacing_rate = 0;
  recv_buffer_size = none;
  send_buffer_size = none;
}

abbrev got : Parameter
got = adjust whole whole (λ f. true) arguments (settings whole whole arguments 0 socket_options)

arguments_parse : parse_parameter whole whole (λ s. some 0) (λ f. true) arguments ≡ ok (some got)
unfolding parse_parameter parse_ipv4 parameter_check parse_socket_options bandwidth_per_thread
    buffer_size_of settings parse_uring_parameter is_power_of_two is_power_from
    has_more_than_one_decimal after_dot adjust
arguments_parse = refl

parse_parameter-IsAccepted_example : IsAccepted arguments got
parse_parameter-IsAccepted_example =
    parse_parameter-IsAccepted whole whole (λ s. some 0) (λ f. true) arguments got arguments_parse
