-- ===== src/Node/Interval.antt =====
-- What the loops of src/node/sender.rs and src/node/receiver.rs share: the clocks that one pass reads,
-- and the test whether an interval of the output is over. An instant is in nanoseconds.
use nperf.Base.{ℕ, ◌-◌, ◌/◌, ◌%◌, Bool, not, ◌&&◌}
use nperf.Config.Floats.{F64, zero_f64, Floats}
use nperf.Statistic.Interval.{StatisticInterval}

-- The readings of one pass: at the loop's test, at the interval's test, in `calculate_interval` (both
-- clocks), and in `Statistic::new` after it.
pub record Clocks : Type 0 where
  pub test : ℕ
  pub due : ℕ
  pub call : ℕ
  pub call_unix : F64
  pub new_unix : F64

abbrev pub nanoseconds : ℕ
nanoseconds = 1_000_000_000

-- `Instant::elapsed`, which stops at zero.
abbrev pub elapsed : ℕ → ℕ → ℕ
elapsed since now = now - since

-- `Duration::as_secs`
abbrev pub as_secs : ℕ → ℕ
as_secs d = d / nanoseconds

module _ (fl : Floats) where
  -- `Duration::as_secs_f64`
  unfoldable pub as_secs_f64 : ℕ → F64
  as_secs_f64 d =
      fl.add (fl.of_u64 (d / nanoseconds))
        (fl.div (fl.of_u64 (d % nanoseconds)) (fl.of_u64 nanoseconds))

  -- Intervals are asked for, and the last one was long enough ago.
  unfoldable pub is_due : ℕ → StatisticInterval → Bool
  unfolding as_secs_f64
  is_due now v =
      not (fl.feq v.output_interval zero_f64)
      && fl.fle v.output_interval (as_secs_f64 (elapsed v.last_send_instant now))
