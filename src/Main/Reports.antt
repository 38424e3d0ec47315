-- ===== src/Main/Reports.antt =====
-- What the program of src/main.rs comes to.
use Prim.Native.String.{String}
use nperf.Base.{
  ℕ, ◌<◌, ◌^◌, ◌≡◌, refl, Bool, true, false, ◌&&◌, List, [], ◌∷◌, ◌++◌, Option, none, some, ok,
}
use nperf.Config.{Parameter, is_receiver}
use nperf.Config.Floats.{Floats}
use nperf.Arguments.{NPerf, parse_parameter}
use nperf.Affinity.{Topology}
use nperf.Net.Socket
use nperf.Net.Socket.{Socket}
use nperf.Statistic.Print.{Line}
use nperf.Statistic.Print.Output.{World, Disk}
use nperf.Statistic.Print.Rows.{Works}
use nperf.Executor.{create_socket, amount_interval_outputs}
use nperf.Executor.Merge.{reported, reported_in_intervals, Numbered}
use nperf.Executor.Loop.{Pass, Report, prepare, run_pass, run_passes, exec}
use nperf.Executor.Reports.{results, run_pass-reported}
use nperf.Main.{main, exec_parsed, ended}

-- A pass in which the shared socket, if any, can be made and closed, the statistics of the threads
-- have the arrays that are asked for, their intervals are numbered from 1 without a gap and are no more
-- than planned, and the sums are below 2^64.
pub record IsSound (fl : Floats) (a : NPerf) (p : Parameter) (x : Pass) : Type 0 where
  pub socket : Option Socket
  pub made : create_socket a p x.creation ≡ ok socket
  pub closed : Socket.close x.close ≡ ok tt
  pub numbered :
      Numbered p.uring_parameter.record_utilization
        (amount_interval_outputs fl p)
        (results fl a p x socket)
  pub total : reported (results fl a p x socket) < 2 ^ 64
  pub in_intervals : reported_in_intervals (results fl a p x socket) < 2 ^ 64

abbrev pub AllSound : Floats → NPerf → Parameter → List Pass → Type 0
AllSound fl a p [] = Unit {0}
AllSound fl a p (x ∷ xs) = IsSound fl a p x × AllSound fl a p xs

module _ (fl : Floats) (w : World) (works : Works w) (a : NPerf) (p : Parameter)
    (few : amount_interval_outputs fl p < 2 ^ 64) where
  pass-reported :
      (x : Pass) (d : Disk) (h : IsSound fl a p x)
      → (report : Report) × (run_pass fl w a p x d ≡ ok report)
        × (report.statistic.amount_datagrams ≡ reported (results fl a p x h.socket))
  pass-reported x d h =
      run_pass-reported fl w works p.uring_parameter.record_utilization a p x d h.socket h.made
        h.closed refl h.numbered few h.total h.in_intervals

  run_passes-endless :
      (xs : List Pass) (d : Disk) (lines : List Line)
      → (a.run_infinite && is_receiver p.mode) ≡ true
      → AllSound fl a p xs
      → run_passes fl w a p xs d lines ≡ none
  unfolding run_passes
  run_passes-endless [] d lines e h = refl
  run_passes-endless (x ∷ xs) d lines e h =
      let (report, q, _) = pass-reported x d h.0 in
      rw (q, e, run_passes) (run_passes-endless xs report.disk (lines ++ report.lines) e h.1)

-- What the program makes of the results of its threads: where the arguments are accepted
-- and do not ask for a receiver that runs infinitely, it makes one pass, with as many threads as the settings ask for, and
-- their ports and test ids, and leaves a report without a panic; the statistic in it counts the datagrams of all threads
-- that were a success. What `run` of the node of each thread returns is given. The manager of the cores can be made,
-- and binds the first thread if it has to; the pass is sound; less than 2^64 intervals are planned; serde_json makes a
-- text of every statistic, the size of a file can be read, and every row can be written.
pub main-reported :
    (fl f32 : Floats) (from_str : String → Option ℕ) (is_default_file : String → Bool) (w : World)
    (works : Works w) (t : Topology) (a : NPerf) (p : Parameter) (x : Pass) (xs : List Pass)
    (d : Disk)
    → parse_parameter fl f32 from_str is_default_file a ≡ ok (some p)
    → (a.run_infinite && is_receiver p.mode) ≡ false
    → prepare t p ≡ ok tt
    → amount_interval_outputs fl p < 2 ^ 64
    → (h : IsSound fl a p x)
    → (report : Report) × (main fl f32 from_str is_default_file w t a (x ∷ xs) d
        ≡ some (ok (some report)))
      × (report.statistic.amount_datagrams ≡ reported (results fl a p x h.socket))
unfolding main exec_parsed exec ended run_passes
main-reported fl f32 from_str is_default_file w works t a p x xs d parsed once ready few h =
    let (report, q, amount) = pass-reported fl w works a p few x d h in
    (
      record report { lines = [] ++ report.lines },
      rw (parsed, exec_parsed, exec, ready, run_passes, q, once) refl,
      amount,
    )

-- A receiver that runs infinitely never ends: whatever number of passes it makes, it neither panics nor
-- returns a report, and starts again. The conditions are those of `main-reported`, for each of its
-- passes.
pub main-endless :
    (fl f32 : Floats) (from_str : String → Option ℕ) (is_default_file : String → Bool) (w : World)
    (works : Works w) (t : Topology) (a : NPerf) (p : Parameter) (xs : List Pass) (d : Disk)
    → parse_parameter fl f32 from_str is_default_file a ≡ ok (some p)
    → (a.run_infinite && is_receiver p.mode) ≡ true
    → prepare t p ≡ ok tt
    → amount_interval_outputs fl p < 2 ^ 64
    → AllSound fl a p xs
    → main fl f32 from_str is_default_file w t a xs d ≡ none
unfolding main exec_parsed exec ended
main-endless fl f32 from_str is_default_file w works t a p xs d parsed forever ready few h =
    let q = run_passes-endless fl w works a p few xs d [] forever h in
    rw (parsed, exec_parsed, exec, ready, q) refl
