-- ===== src/Tests/Programs.antt =====
-- The theorems on the whole program at concrete inputs.
use nperf.Base.{◌≡◌, refl, Bool, [], ◌∷◌, true, false, arith, none, some, ok}
use nperf.Config.{Parameter, receiver, IoModel}
use nperf.Net.Parse.{parse_ipv4}
use nperf.Net.Socket
use nperf.Arguments.{
  NPerf, settings, adjust, parse_parameter, parameter_check, parse_socket_options,
  bandwidth_per_thread, buffer_size_of, parse_uring_parameter, is_power_of_two, is_power_from,
  has_more_than_one_decimal, after_dot,
}
use nperf.Affinity
use nperf.Statistic
use nperf.Statistic.Interval
use nperf.Node.Create.{new_receiver}
use nperf.Buffer.MsghdrVec
use nperf.Buffer.MsghdrVec.{with_cmsg_buffer}
use nperf.Buffer.PacketBuffer
use nperf.Executor.{amount_interval_outputs, spawn_threads, create_socket}
use nperf.Executor.Merge.{reported}
use nperf.Executor.Reports.{results}
use nperf.Executor.Loop.{Report, prepare, thread, shared_ring}
use nperf.Main.{main}
use nperf.Main.Reports.{IsSound, main-reported, main-endless}
use nperf.Tests.Outputs.{world, world-Works, disk}
use nperf.Tests.Settings.{arguments, socket_options}
use nperf.Tests.Threads.{machine, pass}
use nperf.Tests.{whole}

-- Two threads that receive, once or without end.
abbrev receiving : Bool → NPerf
receiving endless = record arguments {
  mode = receiver;
  io_model = IoModel.select;
  uring_sqpoll_shared = false;
  run_infinite = endless;
}

abbrev got : NPerf → Parameter
got a = adjust whole whole (λ f. true) a (settings whole whole a 0 socket_options)

receiving_parse :
    (endless : Bool)
    → parse_parameter whole whole (λ s. some 0) (λ f. true) (receiving endless)
      ≡ ok (some (got (receiving endless)))
unfolding parse_parameter parse_ipv4 parameter_check parse_socket_options bandwidth_per_thread
    buffer_size_of settings parse_uring_parameter is_power_of_two is_power_from
    has_more_than_one_decimal after_dot adjust
receiving_parse endless = refl

pass-IsSound : (endless : Bool) → IsSound whole (receiving endless) (got (receiving endless)) pass
unfolding create_socket Socket.close amount_interval_outputs spawn_threads shared_ring Statistic.new
    thread new_receiver Socket.bind MsghdrVec.new PacketBuffer.new with_cmsg_buffer
    Statistic.Interval.new settings parse_uring_parameter adjust
pass-IsSound endless = record {
  socket = none;
  made = refl;
  closed = refl;
  numbered = (
    (1, refl, omega arith),
    record { setting = refl; slots = tt },
    (record { setting = refl; slots = tt }, tt),
    tt,
  );
  total = omega arith;
  in_intervals = omega arith;
}

machine-prepare : (endless : Bool) → prepare machine (got (receiving endless)) ≡ ok tt
unfolding prepare Affinity.new settings adjust
machine-prepare endless = refl

main-reported_example :
    (report : Report) × (main whole whole
        (λ s. some 0)
        (λ f. true)
        world
        machine
        (receiving false)
        (pass ∷ [])
        disk
      ≡ some (ok (some report)))
    × (report.statistic.amount_datagrams
        ≡ reported (results whole (receiving false) (got (receiving false)) pass none))
unfolding amount_interval_outputs Statistic.Interval.new settings adjust pass-IsSound
main-reported_example =
    main-reported whole whole (λ s. some 0) (λ f. true) world world-Works machine (receiving false)
      (got (receiving false)) pass [] disk (receiving_parse false) refl (machine-prepare false)
      (omega arith) (pass-IsSound false)

main-endless_example :
    main whole whole
      (λ s. some 0)
      (λ f. true)
      world
      machine
      (receiving true)
      (pass ∷ pass ∷ [])
      disk
    ≡ none
unfolding amount_interval_outputs Statistic.Interval.new settings adjust
main-endless_example =
    main-endless whole whole (λ s. some 0) (λ f. true) world world-Works machine (receiving true)
      (got (receiving true)) (pass ∷ pass ∷ []) disk (receiving_parse true) refl
      (machine-prepare true) (omega arith) (pass-IsSound true, (pass-IsSound true, tt))
