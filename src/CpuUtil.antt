-- ===== src/CpuUtil.antt =====
-- src/util/cpu_util.rs: the share of the time that the process spent on the processor. What getrusage
-- and the clock say at a call is an argument.
pub mod Since
use nperf.Base.{ℕ, ◌-◌, ◌/◌, ◌&&◌, ◌==◌, List, [], ◌∷◌, if◌then◌else◌}
use nperf.Config.Floats.{F64, Floats}

-- The two times of `rusage` that are read, each in seconds and microseconds.
pub record Usage : Type 0 where
  pub user_sec : ℕ
  pub user_usec : ℕ
  pub system_sec : ℕ
  pub system_usec : ℕ

abbrev pub zeroed : Usage
zeroed = record { user_sec = 0; user_usec = 0; system_sec = 0; system_usec = 0 }

-- What a call reads: the clock, in nanoseconds, and the usage.
pub record Reading : Type 0 where
  pub instant : ℕ
  pub usage : Usage

pub record CpuUtil : Type 0 where
  pub last_instant : ℕ
  pub last_usage : Usage
  pub first_instant : ℕ
  pub first_usage : Usage

-- `new` asks the clock twice.
unfoldable pub new : Reading → ℕ → CpuUtil
new r first_instant = record {
  last_instant = r.instant;
  last_usage = r.usage;
  first_instant = first_instant;
  first_usage = zeroed;
}

-- The percentages of user, system and both.
abbrev pub Times : Type 0
Times = F64 × F64 × F64

-- The measurements are updated, the first one as long as it has no whole second.
unfoldable pub update : Reading → CpuUtil → CpuUtil
update r u =
    let t = record u { last_instant = r.instant; last_usage = r.usage } in
    if t.first_usage.user_sec == 0 && t.first_usage.system_sec == 0
    then record t { first_instant = r.instant; first_usage = r.usage }
    else t

module _ (fl : Floats) where
  -- `tv_sec as f64 * 1_000_000.0 + tv_usec as f64`
  unfoldable pub micros : ℕ → ℕ → F64
  micros sec usec = fl.add (fl.mul (fl.of_u64 sec) (fl.of_u64 1_000_000)) (fl.of_u64 usec)

  -- The shares between two readings; `duration_since` is zero for an instant that is later.
  unfoldable pub shares : Usage → ℕ → Reading → Times
  unfolding micros
  shares base instant r =
      let timediff = fl.of_u64 ((r.instant - instant) / 1000) in
      let userdiff =
        fl.sub (micros r.usage.user_sec r.usage.user_usec) (micros base.user_sec base.user_usec) in
      let systemdiff =
        fl.sub (micros r.usage.system_sec r.usage.system_usec)
          (micros base.system_sec base.system_usec) in
      let totaldiff = fl.add userdiff systemdiff in
      (
        fl.mul (fl.div userdiff timediff) (fl.of_u64 100),
        fl.mul (fl.div systemdiff timediff) (fl.of_u64 100),
        fl.mul (fl.div totaldiff timediff) (fl.of_u64 100),
      )

  unfoldable pub get_cpu_util : Usage → ℕ → Reading → CpuUtil → Times × CpuUtil
  unfolding shares update
  get_cpu_util base instant r u = (shares base instant r, update r u)

  unfoldable pub get_relative_cpu_util : Reading → CpuUtil → Times × CpuUtil
  unfolding get_cpu_util
  get_relative_cpu_util r u = get_cpu_util u.last_usage u.last_instant r u

  unfoldable pub get_absolut_cpu_util : Reading → CpuUtil → Times × CpuUtil
  unfolding get_cpu_util
  get_absolut_cpu_util r u = get_cpu_util u.first_usage u.first_instant r u

-- A call of one of the two methods.
pub data UtilCall : Type 0 where
  relative absolut : Reading → UtilCall

module _ (fl : Floats) where
  unfoldable pub apply_call : UtilCall → CpuUtil → Times × CpuUtil
  unfolding get_relative_cpu_util get_absolut_cpu_util
  apply_call (relative r) u = get_relative_cpu_util fl r u
  apply_call (absolut r) u = get_absolut_cpu_util fl r u

  unfoldable pub apply_calls : List UtilCall → CpuUtil → CpuUtil
  unfolding apply_call
  apply_calls [] u = u
  apply_calls (c ∷ cs) u = apply_calls cs (apply_call c u).1
