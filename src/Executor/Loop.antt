-- ===== src/Executor/Loop.antt =====
-- The loop of `exec` of src/executor.rs: a pass starts the threads, merges their statistics, and prints them.
use nperf.Base.{
  ℕ, Bool, true, false, ◌==◌, ◌&&◌, not, List, [], ◌∷◌, ◌++◌, map, Option, none, some,
  if◌then◌else◌, Outcome, ok, err, fault, unwrap, ◌>>=◌, ◌>>◌,
}
use nperf.Config.{Parameter, OutputFormat, is_receiver}
use nperf.Config.Floats.{F64, Floats}
use nperf.Arguments.{NPerf}
use nperf.Net.Socket
use nperf.Net.Socket.{Socket, Answer}
use nperf.Statistic
use nperf.Statistic.{Statistic}
use nperf.Statistic.Print.{Line}
use nperf.Statistic.Print.Output.{World, Disk, Output, silent, print}
use nperf.CpuUtil
use nperf.CpuUtil.{Reading, Times, get_relative_cpu_util, get_absolut_cpu_util}
use nperf.Uring.Modes.{RingMaker, new_normal}
use nperf.Affinity
use nperf.Affinity.{Topology}
use nperf.Node.Create.{Creation}
use nperf.Node.Sender.{Sender}
use nperf.Node.Receiver.{Receiver}
use nperf.Executor.{
  Spawned, ThreadResult, create_socket, spawn_threads, exec_thread, amount_interval_outputs,
  empty_intervals, merge_threads,
}

abbrev pub with_times : Times → Statistic → Statistic
with_times (user, system, total) s = record s {
  cpu_user_time = user;
  cpu_system_time = system;
  cpu_total_time = total;
}

-- What goes on after an output, unless it ended in a panic.
abbrev pub and_output : Output → (Disk → Output) → Output
and_output o k = elim o.result [
  | err e ↦ o
  | fault x ↦ o
  | ok u ↦ let o' = k o.disk in record o' { lines = o.lines ++ o'.lines }
]

-- What a pass leaves where it does not panic.
pub record Report : Type 0 where
  pub lines : List Line
  pub disk : Disk
  pub statistic : Statistic

-- What the pass asks of the processor's times: the clock and the usage at `new`, the clock again, and
-- both at the two methods.
pub record CpuReadings : Type 0 where
  pub created : Reading
  pub first_instant : ℕ
  pub started : Reading
  pub joined : Reading

-- What a pass reads: the creation of the shared socket, that of the shared ring and its descriptor, then for
-- each thread the answer to its binding to a core, the creation of its node and what `run` of that node
-- returns, and the readings and the answer to `close` after the threads.
pub record Pass : Type 0 where
  pub creation : Creation
  pub maker : RingMaker
  pub ring_fd : ℕ
  pub set_affinity : Spawned → Outcome (Unit {0})
  pub node : Spawned → Creation
  pub run_sender : Spawned → Sender → ThreadResult
  pub run_receiver : Spawned → Receiver → ThreadResult
  pub now : F64
  pub cpu : CpuReadings
  pub close : Answer

-- A ring that cannot be made is none: `.ok()`.
unfoldable pub shared_ring : Parameter → Pass → Option ℕ
shared_ring p x =
    if p.uring_parameter.sqpoll_shared
    then (elim (new_normal x.maker x.now p none) [
      | ok i ↦ some x.ring_fd
      | err e ↦ none
      | fault f ↦ none
    ])
    else none

-- `if let Some(socket) = socket`
unfoldable pub close_shared : Answer → Option Socket → Outcome (Unit {0})
close_shared close none = ok tt
close_shared close (some s) = unwrap (Socket.close close)

-- What `exec` does before its loop. The manager of the cores is made in any case.
unfoldable pub prepare : Topology → Parameter → Outcome (Unit {0})
prepare t p = Affinity.new t p.mode none p.numa_affinity >>= λ m.
    if p.core_affinity then unwrap (Affinity.bind_to_core 0 m) else ok tt

module _ (fl : Floats) where
  -- `thread::spawn(move || Self::exec_thread(…))`
  unfoldable pub thread : Parameter → Pass → Spawned → ThreadResult
  unfolding exec_thread
  thread p x t =
      exec_thread fl (x.run_sender t) (x.run_receiver t) (x.set_affinity t) (x.node t) p t

  -- The times since the threads were started.
  unfoldable pub pass_times : CpuReadings → Times
  pass_times c =
      let util = CpuUtil.new c.created c.first_instant in
      let (_, util) = get_relative_cpu_util fl c.started util in
      (get_absolut_cpu_util fl c.joined util).0

  module _ (w : World) where
    -- A statistic without datagrams is not printed, and then its rates are not computed.
    unfoldable pub print_used : OutputFormat → Bool → Statistic → Disk → Output × Statistic
    print_used format interval_print s d =
        if not (s.amount_datagrams == 0)
        then print w fl format interval_print s d
        else (silent w (ok tt) d, s)

    unfoldable pub print_intervals : OutputFormat → List Statistic → Disk → Output
    unfolding print_used
    print_intervals format [] d = silent w (ok tt) d
    print_intervals format (s ∷ ss) d =
        and_output (print_used format true s d).0 (print_intervals format ss)

    -- The intervals and the whole are printed, and the shared socket is closed.
    unfoldable pub conclude_pass :
        OutputFormat
        → Times
        → Answer
        → Option Socket
        → Disk
        → Statistic × List Statistic
        → Outcome Report
    unfolding print_intervals close_shared
    conclude_pass format times close socket d (final, vs) =
        let a = print_intervals format vs d in
        let (b, st) = print_used format false (with_times times final) a.disk in
        a.result
        >> b.result
        >> close_shared close socket
        >> ok (record { lines = a.lines ++ b.lines; disk = b.disk; statistic = st })

    -- One pass of the loop, after the threads were started.
    unfoldable pub exec_pass :
        Parameter → F64 → Times → Answer → Option Socket → Disk → List ThreadResult → Outcome Report
    unfolding amount_interval_outputs empty_intervals merge_threads
    exec_pass p now times close socket d rs =
        merge_threads fl (amount_interval_outputs fl p) (Statistic.new p now)
          (empty_intervals fl p now (amount_interval_outputs fl p)) rs
        >>= conclude_pass p.output_format times close socket d

    -- The body of `loop`.
    unfoldable pub run_pass : NPerf → Parameter → Pass → Disk → Outcome Report
    unfolding pass_times shared_ring
    run_pass a p x d = create_socket a p x.creation >>= λ socket.
        exec_pass p x.now (pass_times x.cpu) x.close socket d
          (map (thread p x) (spawn_threads a p socket (shared_ring p x)))

    -- `loop`: a receiver that runs infinitely starts again; none where the passes are used up.
    unfoldable pub run_passes :
        NPerf → Parameter → List Pass → Disk → List Line → Option (Outcome Report)
    unfolding run_pass
    run_passes a p [] d lines = none
    run_passes a p (x ∷ xs) d lines = elim (run_pass a p x d) [
      | err e ↦ some (err e)
      | fault f ↦ some (fault f)
      | ok r ↦
          if not (a.run_infinite && is_receiver p.mode)
          then some (ok (record r { lines = lines ++ r.lines }))
          else run_passes a p xs r.disk (lines ++ r.lines)
    ]

    unfoldable pub exec : Topology → NPerf → Parameter → List Pass → Disk → Option (Outcome Report)
    unfolding prepare run_passes
    exec t a p xs d = elim (prepare t p) [
      | err e ↦ some (err e)
      | fault f ↦ some (fault f)
      | ok u ↦ run_passes a p xs d []
    ]
