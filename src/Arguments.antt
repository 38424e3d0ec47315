-- ===== src/Arguments.antt =====
-- src/command_parser.rs: from the arguments to the settings. Warnings and logging are left out; the
-- crate clap, which reads the arguments, is not modelled. `none` is the refusal of the arguments.
pub mod Accepted
use Prim.Native.String.{String}
use nperf.Base.{
  ℕ, zero, suc, ◌+◌, ◌*◌, ◌/◌, Bool, true, false, not, ◌&&◌, ◌||◌, List, [], ◌∷◌, Option, none,
  some, ltb, leb, ◌==◌, if◌then◌else◌, length, mul32, mul64, Outcome, ok, err, fault, panicked,
  ◌>>=◌, Fault,
}
use nperf.Config
use nperf.Config.{
  Parameter, UringParameter, SocketOptions, NPerfMode, is_sender, is_receiver, IoModel, is_io_uring,
  OutputFormat, file, MultiplexPort, is_sharing, is_sharding, SimulateConnection, single, multiple,
  ExchangeFunction, mmsg, UringMode, is_zerocopy, is_normal_mode, UringSqFillingMode, UringTaskWork,
  is_default_work, default_uring_ring_size, uring_buffer_size_multiplicator,
  uring_burst_size_dividend, uring_max_ring_size, max_udp_datagram_size,
}
use nperf.Config.Floats.{F64, Floats, zero_f64}
use nperf.Net.Parse.{parse_ipv4}

-- The arguments, as clap leaves them.
pub record NPerf : Type 0 where
  pub mode : NPerfMode
  pub ip : String
  pub port : ℕ
  pub sender_port : ℕ
  pub run_infinite : Bool
  pub parallel : ℕ
  pub interval : F64
  pub time : ℕ
  pub label_test : String
  pub label_run : String
  pub repetition_id : ℕ
  pub output_format : OutputFormat
  pub output_file_path : String
  pub io_model : IoModel
  pub exchange_function : ExchangeFunction
  pub with_mmsg_amount : ℕ
  pub with_mss : ℕ
  pub with_gsro : Bool
  pub with_gso_buffer : ℕ
  pub datagram_size : ℕ
  pub with_ip_frag : Bool
  pub without_non_blocking : Bool
  pub with_socket_buffer : F64
  pub bandwidth : ℕ
  pub with_core_affinity : Bool
  pub with_numa_affinity : Bool
  pub multiplex_port : MultiplexPort
  pub multiplex_port_receiver : MultiplexPort
  pub uring_mode : UringMode
  pub uring_sqpoll : Bool
  pub uring_sqpoll_shared : Bool
  pub uring_burst_size : ℕ
  pub uring_ring_size : ℕ
  pub uring_sq_mode : UringSqFillingMode
  pub uring_task_work : UringTaskWork
  pub uring_record_utilization : Bool
  pub markdown_help : Bool

-- `u32::is_power_of_two`: one of the `k` numbers p, 2p, 4p, …
unfoldable pub is_power_from : ℕ → ℕ → ℕ → Bool
is_power_from zero p n = false
is_power_from (suc k) p n = let later = is_power_from k (p * 2) n in if p == n then true else later

unfoldable pub is_power_of_two : ℕ → Bool
unfolding is_power_from
is_power_of_two n = is_power_from 32 1 n

-- `split('.')`, and the part after the first dot: none where there is no dot.
unfoldable pub after_dot : List ℕ → Option (List ℕ)
after_dot [] = none
after_dot (c ∷ cs) = let rest = after_dot cs in if c == b'.' then some (up_to_dot cs) else rest
  where
    up_to_dot : List ℕ → List ℕ
    up_to_dot [] = []
    up_to_dot (c ∷ cs) = let rest = up_to_dot cs in if c == b'.' then [] else c ∷ rest

abbrev default_burst_size : ℕ
default_burst_size = default_uring_ring_size / uring_burst_size_dividend

abbrev pub default_socket_buffer_size : ℕ
default_socket_buffer_size = 212992

-- `f32` has operations of its own.
module _ (fl f32 : Floats) where
  unfoldable pub has_more_than_one_decimal : F64 → Bool
  unfolding after_dot
  has_more_than_one_decimal n = elim (after_dot (fl.display n)) [
    | none ↦ false
    | some decimals ↦ ltb 1 (length decimals)
  ]

  -- A division by zero threads is a panic.
  unfoldable pub bandwidth_per_thread : NPerf → Outcome ℕ
  bandwidth_per_thread a =
      if is_sharing a.multiplex_port
      then ok (mul64 (mul64 (a.bandwidth / 8) 1000) 1000)
      else if a.parallel == 0
      then fault panicked
      else ok (mul64 (mul64 (a.bandwidth / a.parallel / 8) 1000) 1000)

  -- The size of a buffer, unless the factor is 1.0.
  unfoldable pub buffer_size_of : NPerf → Option ℕ
  buffer_size_of a =
      if f32.feq a.with_socket_buffer (f32.of_u64 1)
      then none
      else some (
          f32.to_u64
            (f32.round (f32.mul (f32.of_u64 default_socket_buffer_size) a.with_socket_buffer)))

  unfoldable pub parse_socket_options : NPerf → NPerfMode → Outcome SocketOptions
  unfolding bandwidth_per_thread buffer_size_of
  parse_socket_options a mode = bandwidth_per_thread a >>= λ bandwidth. ok (record {
    nonblocking = not a.without_non_blocking;
    ip_fragmentation = a.with_ip_frag;
    reuseport =
        if is_sender mode
        then is_sharding a.multiplex_port
        else is_sharding a.multiplex_port_receiver;
    gso = if a.with_gsro && is_sender mode then some a.datagram_size else none;
    gro = is_receiver mode && a.with_gsro;
    socket_pacing_rate = bandwidth;
    recv_buffer_size = buffer_size_of a;
    send_buffer_size = buffer_size_of a;
  })

  unfoldable pub parse_uring_parameter : NPerf → UringParameter
  parse_uring_parameter a = record {
    uring_mode = a.uring_mode;
    ring_size = a.uring_ring_size;
    burst_size =
        if a.uring_burst_size == default_burst_size
        then f32.to_u64 (
            f32.ceil
              (f32.div (f32.of_u64 a.uring_ring_size) (f32.of_u64 uring_burst_size_dividend)))
        else a.uring_burst_size;
    buffer_size = mul32 a.uring_ring_size uring_buffer_size_multiplicator;
    sqpoll = a.uring_sqpoll;
    sqpoll_shared = a.uring_sqpoll_shared;
    sq_filling_mode = a.uring_sq_mode;
    task_work = a.uring_task_work;
    record_utilization = a.uring_record_utilization;
  }

  -- The interval times the rounded number of intervals is not the time.
  abbrev does_not_fit : NPerf → Bool
  does_not_fit a =
      let time = fl.of_u64 a.time in
      fl.flt zero_f64 a.interval
      && fl.flt fl.billionth
          (fl.abs (fl.sub (fl.mul a.interval (fl.round (fl.div time a.interval))) time))

  abbrev bandwidth_too_big : NPerf → Bool
  bandwidth_too_big a =
      ltb 0 a.bandwidth
      && (not (is_receiver a.mode)
          && leb 18_446_744_073_709_551_615 (a.bandwidth / 8 / 1000 / 1000))

  -- What is changed of accepted settings; `default_file_name` is that of the output.
  unfoldable pub adjust : (String → Bool) → NPerf → Parameter → Parameter
  adjust is_default_file a p =
      let u = p.uring_parameter in
      let sqpoll = u.sqpoll || (a.uring_sqpoll_shared && not a.uring_sqpoll) in
      record p {
        packet_buffer_size =
            if (is_io_uring a.io_model && is_normal_mode a.uring_mode) || is_zerocopy a.uring_mode
            then u.buffer_size
            else p.packet_buffer_size;
        socket_options =
            if ltb 0 a.bandwidth && is_receiver a.mode
            then record p.socket_options { socket_pacing_rate = 0 }
            else p.socket_options;
        uring_parameter = record u {
          sqpoll = sqpoll;
          task_work =
              if sqpoll && not (is_default_work u.task_work)
              then UringTaskWork.default
              else u.task_work;
        };
        output_format = if is_default_file p.output_file_path then p.output_format else file;
      }

  unfoldable pub parameter_check : (String → Bool) → NPerf → Parameter → Option Parameter
  unfolding adjust is_power_of_two has_more_than_one_decimal
  parameter_check is_default_file a p =
      if ltb max_udp_datagram_size p.datagram_size
      then none
      else if not (is_power_of_two a.uring_ring_size)
      then none
      else if ltb a.uring_ring_size p.uring_parameter.burst_size
      then none
      else if ltb uring_max_ring_size a.uring_ring_size
      then none
      else if is_io_uring a.io_model && (is_zerocopy a.uring_mode && not (is_sender p.mode))
      then none
      else if does_not_fit a
      then none
      else if fl.flt zero_f64 a.interval && (a.time == 0 && is_receiver a.mode)
      then none
      else if has_more_than_one_decimal a.interval
      then none
      else if bandwidth_too_big a
      then none
      else some (adjust is_default_file a p)

  -- The settings before they are checked.
  unfoldable pub settings : NPerf → ℕ → SocketOptions → Parameter
  unfolding parse_uring_parameter
  settings a ip options =
      Config.new a.label_test a.label_run a.repetition_id a.mode ip a.parallel a.interval
        a.output_format a.output_file_path a.io_model a.time
        (if a.with_gsro then a.with_gso_buffer else a.with_mss) a.datagram_size
        (elim a.exchange_function [ mmsg ↦ a.with_mmsg_amount | _ ↦ 1 ]) options a.exchange_function
        a.multiplex_port a.multiplex_port_receiver
        (if is_sharing a.multiplex_port_receiver then single else multiple) a.with_core_affinity
        a.with_numa_affinity (parse_uring_parameter a)

  -- `from_str` is that of the addresses of the standard library.
  unfoldable pub parse_parameter :
      (String → Option ℕ) → (String → Bool) → NPerf → Outcome (Option Parameter)
  unfolding parse_ipv4 parse_socket_options settings parameter_check
  parse_parameter from_str is_default_file a =
      if a.markdown_help then ok none else elim (parse_ipv4 from_str a.ip) [
        | err e ↦ ok none
        | fault f ↦ fault f
        | ok ip ↦ parse_socket_options a a.mode >>= λ options.
            ok (parameter_check is_default_file a (settings a ip options))
      ]
