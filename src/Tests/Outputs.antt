-- ===== src/Tests/Outputs.antt =====
-- The theorems on the output and on the times of the processor at concrete inputs.
use nperf.Base.{ℕ, ◌≡◌, refl, List, [], ◌∷◌, true, false, none, some}
use nperf.Statistic.Print.Output.{World, Disk, print}
use nperf.Statistic.Print.Rows.{Works, csv}
use nperf.Statistic.Print.Panics.{Ends, Broken, print-Ends}
use nperf.Statistic.{calculate_statistics}
use nperf.Config.{file}
use nperf.Statistic.Counters.{new-IsSized}
use nperf.CpuUtil
use nperf.CpuUtil.{
  Reading, UtilCall, relative, absolut, apply_calls, get_relative_cpu_util, get_absolut_cpu_util,
  shares,
}
use nperf.CpuUtil.Since.{get_cpu_util-base}
use nperf.Tests.{fresh, parameter, whole}

abbrev pub used_at : ℕ → ℕ → Reading
used_at n seconds = record {
  instant = n;
  usage = record { user_sec = seconds; user_usec = 0; system_sec = 0; system_usec = 0 };
}

-- The results go to the file r.csv.
abbrev pub world : World
world = record {
  set_extension = λ path extension. "r.csv";
  parent = λ path. none;
  to_json = λ s. some "{}";
  creates = λ path. true;
  opens = λ path. true;
  sizes = λ path. true;
  writes = λ s. true;
}

pub world-Works : Works world
world-Works = record { to_json = λ s. ("{}", refl); sizes = λ path. refl; writes = λ s. refl }

abbrev pub disk : Disk
disk = record { is_there = λ path. true; rows = λ path. csv (fresh ∷ []) }

-- A disk on which nothing can be written any more.
abbrev full : World
full = record world { writes = λ s. false }

print-Ends_example :
    Ends full
      (Broken full file (calculate_statistics whole fresh) disk)
      (print full whole file false fresh disk).0.result
print-Ends_example =
    print-Ends full whole false file false fresh disk (new-IsSized false parameter 0 refl)

-- No second at the first call, one at the second, three at the third.
abbrev later_calls : List UtilCall
later_calls = absolut (used_at 4000 1) ∷ relative (used_at 6000 3) ∷ []

get_cpu_util-base_example :
    let u =
      apply_calls whole
        (relative (used_at 2000 0) ∷ later_calls)
        (CpuUtil.new (used_at 0 0) 1000) in
    ((get_relative_cpu_util whole (used_at 9000 4) u).0
      ≡ shares whole (used_at 6000 3).usage 6000 (used_at 9000 4))
    × ((get_absolut_cpu_util whole (used_at 9000 4) u).0
        ≡ shares whole (used_at 4000 1).usage 4000 (used_at 9000 4))
get_cpu_util-base_example =
    get_cpu_util-base whole (used_at 0 0) 1000 (relative (used_at 2000 0)) later_calls
      (used_at 9000 4)
