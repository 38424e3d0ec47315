-- ===== src/Node/Receiver/Run/Datagrams.antt =====
-- The datagrams counted by a receiver, over its intervals and measurements: `Receiver::run` of
-- src/node/receiver.rs.
use nperf.Base.{
  ℕ, ◌+◌, ◌^◌, ◌<◌, ◌≡◌, refl, ap, subst, ◌⊎◌, inl, inr, Bool, false, List, [], ◌∷◌, map, some,
  arith, length, ok, Bool-cases, ◌>>=◌,
}
use nperf.Config.{Parameter}
use nperf.Config.Floats.{F64, Floats}
use nperf.Statistic
use nperf.Statistic.{Statistic, Measurement, sum_from, set_test_duration}
use nperf.Statistic.Counters.{IsSized, AllSized, new-IsSized}
use nperf.Statistic.Kept.{
  kept, calculate_interval-kept, calculate_interval-AllSized, new-datagrams, sum_from-kept,
}
use nperf.Statistic.Interval.{finished}
use nperf.Node.Interval.{Clocks, is_due}
use nperf.Node.Receiver.Run.{
  Running, statistics_of, check_interval, fold_measurements, begin_interval, final_statistic,
  wait_seconds,
}

-- The datagrams of the current interval, and with those of the intervals before.
abbrev pub current : Running → ℕ
current x = x.statistic.amount_datagrams + kept (statistics_of x.receiver.measurements)

abbrev pub gathered : Running → ℕ
gathered x = kept x.receiver.statistic_interval.statistics + current x

-- All statistics have the arrays that the settings ask for.
pub record IsWhole (r : Bool) (x : Running) : Type 0 where
  pub setting : x.receiver.parameter.uring_parameter.record_utilization ≡ r
  pub own : IsSized r x.statistic
  pub measured : AllSized r (statistics_of x.receiver.measurements)
  pub intervals : AllSized r x.receiver.statistic_interval.statistics

module _ (fl : Floats) where
  reset-kept :
      (r : Bool) (p : Parameter) (now : F64) (ms : List Measurement)
      → p.uring_parameter.record_utilization ≡ r
      → let new_ms = map (λ (m : Measurement). record m { statistic = Statistic.new p now }) ms in
        (kept (statistics_of new_ms) ≡ 0) × AllSized r (statistics_of new_ms)
  reset-kept r p now [] e = (refl, tt)
  reset-kept r p now (m ∷ ms) e =
      let (k, h) = reset-kept r p now ms e in
      (omega (arith, new-datagrams fl p now, k), (new-IsSized r p now e, h))

  fold_measurements-current :
      (r : Bool) (x : Running)
      → IsWhole r x
      → current x < 2 ^ 64
      → (st : Statistic) × (fold_measurements fl x ≡ ok st)
        × IsSized r st
        × (st.amount_datagrams ≡ current x)
  unfolding fold_measurements
  fold_measurements-current r x h few =
      sum_from-kept fl r x.statistic (statistics_of x.receiver.measurements) h.own h.measured few

  begin_interval-gathered :
      (r : Bool) (c : Clocks) (x : Running) (st : Statistic)
      → IsWhole r x
      → IsSized r st
      → st.amount_datagrams ≡ current x
      → finished x.receiver.statistic_interval ≡ false
      → IsWhole r (begin_interval fl c x st) × (gathered (begin_interval fl c x st) ≡ gathered x)
  begin_interval-gathered r c x st h hs d f =
      let v = x.receiver.statistic_interval in
      let p = x.receiver.parameter in
      let (none_left, sized) = reset-kept r p c.new_unix x.receiver.measurements h.setting in
      let z = new-datagrams fl p c.new_unix in
      (
        record {
          setting = h.setting;
          own = new-IsSized r p c.new_unix h.setting;
          measured = sized;
          intervals = (calculate_interval-AllSized fl r st c.call c.call_unix v f h.intervals hs).0;
        },
        omega (arith, calculate_interval-kept fl st c.call c.call_unix v f, none_left, z, d),
      )

  -- The end of an interval neither panics nor loses or repeats a datagram: where planned intervals
  -- are left, the sum over the intervals kept, the loop's statistic and the measurements is the same before and
  -- after, and it stays below 2^64.
  pub check_interval-gathered :
      (r : Bool) (c : Clocks) (x : Running)
      → IsWhole r x
      → finished x.receiver.statistic_interval ≡ false
      → gathered x < 2 ^ 64
      → (y : Running) × (check_interval fl c x ≡ ok y) × IsWhole r y × (gathered y ≡ gathered x)
  unfolding check_interval
  check_interval-gathered r c x h f few =
      elim (Bool-cases (is_due fl c.due x.receiver.statistic_interval)) [
        | inr e ↦ (x, rw e refl, h, refl)
        | inl e ↦
            let (st, q, hs, d) = fold_measurements-current r x h (omega arith) in
            let (h', k) = begin_interval-gathered r c x st h hs d f in
            (begin_interval fl c x st, rw (e, q, fold_measurements) refl, h', k)
      ]

  -- What a receiver reports in the end: without any interval, the datagrams of the loop's statistic and of
  -- all measurements; with intervals, those of the intervals only, so that what came after the
  -- last interval is not in it. The sums are below 2^64.
  pub final_statistic-datagrams :
      (r : Bool) (now unix : F64) (x : Running)
      → IsWhole r x
      → gathered x < 2 ^ 64
      → (st : Statistic) × (final_statistic fl now unix x ≡ ok st)
        × ((x.receiver.statistic_interval.statistics ≡ []) × (st.amount_datagrams ≡ current x)
            ⊎ (0 < length x.receiver.statistic_interval.statistics)
              × (st.amount_datagrams ≡ kept x.receiver.statistic_interval.statistics))
  unfolding final_statistic set_test_duration
  final_statistic-datagrams r now unix x h few = go x.receiver.statistic_interval.statistics refl
    where
      go :
          (ss : List Statistic)
          → x.receiver.statistic_interval.statistics ≡ ss
          → (st : Statistic) × ((elim ss [
            | [] ↦ fold_measurements fl x >>= λ t. ok (
                set_test_duration fl
                  (some x.receiver.statistic_interval.last_send_timestamp)
                  (some (fl.sub unix (wait_seconds fl)))
                  t)
            | s ∷ rest ↦ sum_from fl (Statistic.new x.receiver.parameter now) (s ∷ rest)
          ])
              ≡ ok st)
            × ((ss ≡ []) × (st.amount_datagrams ≡ current x)
                ⊎ (0 < length ss) × (st.amount_datagrams ≡ kept ss))
      go [] e =
          let (st, q, _, d) = fold_measurements-current r x h (omega arith) in
          (
            set_test_duration fl (some x.receiver.statistic_interval.last_send_timestamp)
                (some (fl.sub unix (wait_seconds fl))) st,
            rw q refl,
            inl (refl, d),
          )
      go (s ∷ ss) e =
          let z = new-datagrams fl x.receiver.parameter now in
          let (st, q, _, d) =
            sum_from-kept fl r (Statistic.new x.receiver.parameter now) (s ∷ ss)
              (new-IsSized r x.receiver.parameter now h.setting) (subst (AllSized r) e h.intervals)
              (omega (arith, ap kept e)) in
          (st, q, inr (omega arith, omega arith))
