-- ===== src/Main.antt =====
-- src/main.rs: from the arguments to the report.
pub mod Reports
use Prim.Native.String.{String}
use nperf.Base.{ℕ, Bool, List, Option, none, some, Outcome, ok, err, fault, ◌>>=◌}
use nperf.Config.{Parameter}
use nperf.Config.Floats.{Floats}
use nperf.Arguments.{NPerf, parse_parameter}
use nperf.Affinity.{Topology}
use nperf.Statistic.Print.Output.{World, Disk}
use nperf.Executor.Loop.{Pass, Report, exec}

-- The program's end: with a report, or without one where the arguments are refused.
abbrev pub Ending : Type 0
Ending = Outcome (Option Report)

unfoldable pub ended : Option (Outcome Report) → Option Ending
ended none = none
ended (some o) = some (o >>= λ report. ok (some report))

module _ (fl f32 : Floats) (from_str : String → Option ℕ) (is_default_file : String → Bool)
    (w : World) where
  unfoldable pub exec_parsed :
      Topology → NPerf → List Pass → Disk → Outcome (Option Parameter) → Option Ending
  unfolding exec ended
  exec_parsed t a xs d (err e) = some (err e)
  exec_parsed t a xs d (fault f) = some (fault f)
  exec_parsed t a xs d (ok none) = some (ok none)
  exec_parsed t a xs d (ok (some p)) = ended (exec fl w t a p xs d)

  -- The arguments are those that clap has read; none is a program that still runs.
  unfoldable pub main : Topology → NPerf → List Pass → Disk → Option Ending
  unfolding exec_parsed parse_parameter
  main t a xs d = exec_parsed t a xs d (parse_parameter fl f32 from_str is_default_file a)
