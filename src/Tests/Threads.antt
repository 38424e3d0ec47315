-- ===== src/Tests/Threads.antt =====
-- The theorems on the threads, their sockets and their cores at concrete inputs.
use nperf.Base.{
  ◌<◌, ℕ, ◌+◌, ◌≡◌, ◌≢◌, ◌≤◌, refl, List, [], ◌∷◌, ◌++◌, map, true, false, arith, none, some, ok,
  err, range_from, length, if◌then◌else◌, ltb, ◌>>=◌, error_running_app,
}
use nperf.Config.{receiver, Parameter, file}
use nperf.Net.Socket.{Socket, Answer, returned, failed}
use nperf.Net.Socket
use nperf.Net.Options.{Kernel}
use nperf.Statistic
use nperf.Statistic.{Statistic}
use nperf.Statistic.Kept.{kept}
use nperf.Statistic.Interval.{ids, IntervalCall, calculate_intervals}
use nperf.Statistic.Interval
use nperf.Affinity
use nperf.Affinity.{Topology, core_ids}
use nperf.Affinity.Cores.{core_ids-receiver_new, receiver_core}
use nperf.Executor.Places.{Placed, amount_in_interval}
use nperf.Executor.{
  ThreadResult, Spawned, merge_threads, amount_interval_outputs, spawn_threads, create_socket,
}
use nperf.Node.Create.{Creation, new_receiver}
use nperf.Buffer.MsghdrVec
use nperf.Buffer.MsghdrVec.{with_cmsg_buffer}
use nperf.Buffer.PacketBuffer
use nperf.Executor.Merge.{reported, reported_in_intervals, merge_threads-kept}
use nperf.Executor.Ports.{spawn_threads-receiver_port, spawn_threads-test_id}
use nperf.Executor.Reports.{calculate_intervals-places, results}
use nperf.Executor.Loop.{Pass, Report, CpuReadings, run_pass, thread, shared_ring}
use nperf.Executor.Printing.{used}
use nperf.Executor.Recorded.{run_pass-csv}
use nperf.Statistic.Print.Rows.{csv}
use nperf.Tests.Outputs.{used_at, world, world-Works, disk}
use nperf.Statistic.Counters.{IsSized, AllSized}
use nperf.Tests.Settings.{arguments}
use nperf.Tests.{a_socket, fresh, parameter, whole}

-- The machine of the tests has three cores.
abbrev pub machine : Topology
machine = record {
  is_readable = true;
  reports_pu_count = true;
  cpu_binding = some (true, true);
  pu_count = 3;
  numa_nodes = [];
  binds = λ c. ltb c 3;
}

core_ids-receiver_new_example :
    Affinity.new machine receiver none false >>= core_ids 4
    ≡ ok (map (receiver_core 3) (range_from 0 4))
core_ids-receiver_new_example =
    core_ids-receiver_new machine 4 refl (omega arith) (omega arith) (omega arith)

-- The third call fails.
abbrev kernel : Kernel
kernel h c = if ltb (length h) 2 then returned 0 else failed 1

-- Two threads with an interval each, and one that failed.
abbrev counted : ℕ → Statistic
counted n = record fresh { amount_datagrams = n; interval_id = 1 }

abbrev threads : List ThreadResult
threads =
    ok (counted 3, counted 3 ∷ []) ∷ err error_running_app ∷ ok (counted 5, counted 5 ∷ []) ∷ []

merge_threads-kept_example :
    (st : Statistic) × (ws : List Statistic) × (merge_threads whole 1 fresh (fresh ∷ []) threads
      ≡ ok (st, ws))
    × (length ws ≡ 1)
    × (st.amount_datagrams ≡ fresh.amount_datagrams + reported threads)
    × (kept ws ≡ kept (fresh ∷ []) + reported_in_intervals threads)
    × IsSized false st
    × AllSized false ws
unfolding Statistic.new
merge_threads-kept_example =
    merge_threads-kept whole false threads fresh (fresh ∷ [])
      (record { setting = refl; slots = tt }) (record { setting = refl; slots = tt }, tt)
      (
        (1, refl, omega arith),
        record { setting = refl; slots = tt },
        (record { setting = refl; slots = tt }, tt),
        (
          (1, refl, omega arith),
          record { setting = refl; slots = tt },
          (record { setting = refl; slots = tt }, tt),
          tt,
        ),
      )
      (omega arith) (omega arith) (omega arith)

calculate_intervals-places_example :
    let v = Statistic.Interval.new whole 0 2 10 0 in
    (k : ℕ) × (ids (calculate_intervals whole v ((fresh, 2, 2) ∷ (fresh, 4, 4) ∷ [])).statistics
      ≡ range_from 1 k)
    × (k ≤ amount_interval_outputs whole parameter)
unfolding amount_interval_outputs
calculate_intervals-places_example =
    calculate_intervals-places whole parameter 0 0 ((fresh, 2, 2) ∷ (fresh, 4, 4) ∷ [])
      (omega arith)

abbrev thread_at : ℕ → Spawned
thread_at i = record {
  socket = none;
  io_uring_fd = none;
  receiver_port = 45001 + i;
  local_port_sender = none;
  test_id = i;
}

spawn_threads-receiver_port_example : (thread_at 0).receiver_port ≢ (thread_at 1).receiver_port
unfolding spawn_threads
spawn_threads-receiver_port_example =
    spawn_threads-receiver_port arguments parameter none none 0 1 (thread_at 0) (thread_at 1)
      (λ h. absurd (omega arith)) refl refl refl (omega arith)

spawn_threads-test_id_example :
    ((thread_at 0).test_id ≢ (thread_at 1).test_id)
    × ((thread_at 0).test_id < parameter.amount_threads)
unfolding spawn_threads
spawn_threads-test_id_example =
    spawn_threads-test_id arguments parameter none none 0 1 (thread_at 0) (thread_at 1)
      (λ h. absurd (omega arith)) refl refl refl

-- Every call on a socket is a success.
abbrev creation : Creation
creation = record {
  made = ok (some a_socket);
  bind_answer = returned 0;
  connect_answer = returned 0;
  statistic_unix = 0;
  instant = 0;
  interval_unix = 0;
}

-- The run of the first of two threads fails, the second one counts five datagrams in one interval.
abbrev run_at : Spawned → ThreadResult
run_at t = if ltb t.test_id 1 then err error_running_app else ok (counted 5, counted 5 ∷ [])

abbrev cpu : CpuReadings
cpu = record {
  created = used_at 1000 0;
  first_instant = 2000;
  started = used_at 3000 0;
  joined = used_at 5000 1;
}

abbrev saving : Parameter
saving = record parameter { output_format = file }

abbrev pub pass : Pass
pass = record {
  creation = creation;
  maker = record { build = λ s n. false; probe = none; registers = λ r. false };
  ring_fd = 0;
  set_affinity = λ t. ok tt;
  node = λ t. creation;
  run_sender = λ t s. run_at t;
  run_receiver = λ t r. run_at t;
  now = 0;
  cpu = cpu;
  close = returned 0;
}

run_pass-csv_example :
    (report : Report) × (st : Statistic) × (vs : List Statistic) × (run_pass whole world arguments
        saving pass disk
      ≡ ok report)
    × (report.disk.rows "r.csv"
        ≡ csv (
            ((fresh ∷ []) ++ used whole world world-Works vs)
            ++ used whole world world-Works (st ∷ [])))
    × (st.amount_datagrams ≡ reported (results whole arguments saving pass none))
    × (kept vs ≡ reported_in_intervals (results whole arguments saving pass none))
    × (length vs ≡ amount_interval_outputs whole saving)
    × Placed (λ k. amount_in_interval k (results whole arguments saving pass none)) 1 vs
unfolding create_socket Socket.close amount_interval_outputs spawn_threads shared_ring Statistic.new
    thread new_receiver Socket.bind MsghdrVec.new PacketBuffer.new with_cmsg_buffer
    Statistic.Interval.new
run_pass-csv_example =
    run_pass-csv whole world world-Works false arguments saving pass disk none (fresh ∷ []) refl
      refl refl
      (
        (1, refl, omega arith),
        record { setting = refl; slots = tt },
        (record { setting = refl; slots = tt }, tt),
        tt,
      )
      (omega arith) (omega arith) (omega arith) refl
      (record { opens = refl; creates = λ dir e. refl }) refl
