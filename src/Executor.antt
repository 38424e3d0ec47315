-- ===== src/Executor.antt =====
-- src/executor.rs: the threads that a run starts, and how their statistics are put together; Loop has
-- the loop around them. What `run` of the nodes of the threads returns is an argument.
pub mod Merge
pub mod Reports
pub mod Ports
pub mod Printing
pub mod Places
pub mod Recorded
pub mod Loop
use nperf.Base.{
  ℕ, zero, suc, ◌+◌, ◌==◌, ◌&&◌, ◌||◌, Bool, true, false, not, List, [], ◌∷◌, ◌++◌, map, Option,
  none, some, if◌then◌else◌, add64, add16, sub64, get_elem?, set, replicate, range_from, Outcome,
  ok, err, fault, Fault, panicked, Error, error_running_app, unwrap, ◌>>=◌, ◌>>◌,
}
use nperf.Config.{
  Parameter, NPerfMode, is_sender, is_receiver, is_sharing, is_sharding, is_individual, is_single,
  IoModel,
}
use nperf.Config.Floats.{F64, zero_f64, Floats}
use nperf.Arguments.{NPerf}
use nperf.Net.Socket
use nperf.Net.Socket.{Socket, SocketAddr, Answer}
use nperf.Statistic
use nperf.Statistic.{Statistic, add}
use nperf.Affinity
use nperf.Affinity.{Topology}
use nperf.Node.Create.{
  Creation, address, default_sender_ip, expect_new, expect_socket, new_sender, new_receiver,
}
use nperf.Node.Sender.{Sender}
use nperf.Node.Receiver.{Receiver}

-- What a thread is started with.
pub record Spawned : Type 0 where
  pub socket : Option Socket
  pub io_uring_fd : Option ℕ
  pub receiver_port : ℕ
  pub local_port_sender : Option ℕ
  pub test_id : ℕ

-- Ports are 16 bits wide; a shared or sharded receiver has one port for all threads.
unfoldable pub receiver_port_of : NPerf → Parameter → ℕ → ℕ
receiver_port_of a p i =
    if not (is_individual p.multiplex_port_receiver) then a.port else add16 a.port i

-- One connection is simulated by one test id.
unfoldable pub test_id_of : Parameter → ℕ → ℕ
test_id_of p i = if is_single p.simulate_connection then 0 else i

unfoldable pub spawned : NPerf → Parameter → Option Socket → Option ℕ → ℕ → Spawned
unfolding receiver_port_of test_id_of
spawned a p socket io_uring_fd i = record {
  socket = socket;
  io_uring_fd = io_uring_fd;
  receiver_port = receiver_port_of a p i;
  local_port_sender = if is_sharding p.multiplex_port then some a.sender_port else none;
  test_id = test_id_of p i;
}

-- `for i in 0..parameter.amount_threads`
unfoldable pub spawn_threads : NPerf → Parameter → Option Socket → Option ℕ → List Spawned
unfolding spawned
spawn_threads a p socket io_uring_fd =
    map (spawned a p socket io_uring_fd) (range_from 0 p.amount_threads)

-- The one socket that all threads use, where the settings share it: bound to the sender's port and connected
-- where the receiver has one port, or bound to the receiver's port.
unfoldable pub create_socket : NPerf → Parameter → Creation → Outcome (Option Socket)
create_socket a p c =
    if is_sender p.mode && is_sharing p.multiplex_port
    then (expect_new c.made >>= λ s.
        expect_socket (Socket.bind (address default_sender_ip a.sender_port) c.bind_answer s)
        >>= λ s.
            if is_sharding p.multiplex_port_receiver || is_sharing p.multiplex_port_receiver
            then (expect_socket (Socket.connect (address p.ip a.port) c.connect_answer s) >>= λ s.
                ok (some s))
            else ok (some s))
    else if is_receiver p.mode && is_sharing p.multiplex_port_receiver
    then (expect_new c.made >>= λ s.
        expect_socket (Socket.bind (address p.ip a.port) c.bind_answer s) >>= λ s. ok (some s))
    else ok none

-- The result of a thread: its statistics, an error, or a panic.
abbrev pub ThreadResult : Type 0
ThreadResult = Outcome (Statistic × List Statistic)

-- Every error of a node becomes one text.
abbrev pub report : ThreadResult → ThreadResult
report (err e) = err error_running_app
report r = r

module _ (fl : Floats) where
  -- The trait `Node`: `run` of either kind.
  unfoldable pub exec_thread :
      (Sender → ThreadResult)
      → (Receiver → ThreadResult)
      → Outcome (Unit {0})
      → Creation
      → Parameter
      → Spawned
      → ThreadResult
  exec_thread run_sender run_receiver set_affinity c p t =
      let peer = address p.ip t.receiver_port in
      (if p.core_affinity then unwrap set_affinity else ok tt)
      >> (if is_sender p.mode
          then (new_sender fl c t.test_id t.local_port_sender peer t.socket t.io_uring_fd p >>= λ s.
              report (run_sender s))
          else (new_receiver fl c peer t.socket t.io_uring_fd p >>= λ r. report (run_receiver r)))

  unfoldable pub amount_interval_outputs : Parameter → ℕ
  amount_interval_outputs p =
      if fl.feq p.output_interval zero_f64
      then 0
      else fl.to_u64 (fl.floor (fl.div (fl.of_u64 p.test_runtime_length) p.output_interval))

  -- `vec![Statistic::new(…); n]`, numbered from 1.
  unfoldable pub empty_intervals : Parameter → F64 → ℕ → List Statistic
  empty_intervals p now n =
      map (λ i. record (Statistic.new p now) { interval_id = i }) (range_from 1 n)

  -- `final_interval_statistics[interval_id] = … + statistic`; out of range is a panic.
  unfoldable pub merge_interval : List Statistic → Statistic → Outcome (List Statistic)
  merge_interval vs s =
      let i = sub64 s.interval_id 1 in
      elim (get_elem? vs i) [ none ↦ fault panicked | some v ↦ add fl v s >>= λ t. ok (set vs i t) ]

  unfoldable pub merge_intervals : List Statistic → List Statistic → Outcome (List Statistic)
  unfolding merge_interval
  merge_intervals vs [] = ok vs
  merge_intervals vs (s ∷ ss) = merge_interval vs s >>= λ ws. merge_intervals ws ss

  -- The threads in the order in which they were started; one that failed or panicked is left out.
  unfoldable pub merge_threads :
      ℕ → Statistic → List Statistic → List ThreadResult → Outcome (Statistic × List Statistic)
  unfolding merge_intervals
  merge_threads n final vs [] = ok (final, vs)
  merge_threads n final vs (err e ∷ rs) = merge_threads n final vs rs
  merge_threads n final vs (fault x ∷ rs) = merge_threads n final vs rs
  merge_threads n final vs (ok (s, ss) ∷ rs) = add fl final s >>= λ final'.
      (if not (n == 0) then merge_intervals vs ss else ok vs) >>= λ vs'.
      merge_threads n final' vs' rs
