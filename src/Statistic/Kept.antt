-- ===== src/Statistic/Kept.antt =====
-- The datagrams that the statistics of src/util/statistic.rs count, over the intervals and in a sum.
use nperf.Base.{
  ℕ, ◌+◌, ◌^◌, ◌<◌, ◌≡◌, refl, ap, ◌∙◌, Bool, true, false, List, [], ◌∷◌, ◌++◌, Option, some, arith,
  length, length-append, ok,
}
use nperf.Config.{Parameter}
use nperf.Config.Floats.{F64, Floats}
use nperf.Statistic.{Statistic, new, sum_from, set_test_duration, calculate_statistics}
use nperf.Statistic.Counters.{Counters, counters, plus, total, IsSized, AllSized, sum_from-total}
use nperf.Statistic.Interval.{StatisticInterval, calculate_interval, finished}

-- The datagrams of the statistics kept.
abbrev pub kept : List Statistic → ℕ
kept [] = 0
kept (s ∷ ss) = s.amount_datagrams + kept ss

kept-append :
    (ss : List Statistic) (s : Statistic) → kept (ss ++ (s ∷ [])) ≡ kept ss + s.amount_datagrams
kept-append [] s = omega arith
kept-append (x ∷ ss) s = omega (arith, kept-append ss s)

total-datagrams :
    (c : Counters) (ss : List Statistic)
    → c.datagrams + kept ss < 2 ^ 64
    → (total c ss).datagrams ≡ c.datagrams + kept ss
total-datagrams c [] h = omega arith
total-datagrams c (s ∷ ss) h =
    let one : (plus c (counters s)).datagrams ≡ c.datagrams + s.amount_datagrams = omega arith in
    total-datagrams (plus c (counters s)) ss (omega arith) ∙ omega arith

AllSized-append :
    (r : Bool) (ss : List Statistic) (s : Statistic)
    → AllSized r ss
    → IsSized r s
    → AllSized r (ss ++ (s ∷ []))
AllSized-append r [] s h k = (k, tt)
AllSized-append r (x ∷ ss) s h k = (h.0, AllSized-append r ss s h.1 k)

module _ (fl : Floats) where
  measured-amount :
      (s : Statistic) (k : ℕ) (a b : Option F64)
      → (calculate_statistics fl
          (set_test_duration fl a b (record s { interval_id = k }))).amount_datagrams
        ≡ s.amount_datagrams
  unfolding calculate_statistics set_test_duration
  measured-amount s k a b = refl

  -- A call of `calculate_interval` keeps the datagrams, unless the planned intervals are over.
  pub calculate_interval-kept :
      (s : Statistic) (now : ℕ) (unix : F64) (v : StatisticInterval)
      → finished v ≡ false
      → kept (calculate_interval fl s now unix v).statistics
        ≡ kept v.statistics + s.amount_datagrams
  unfolding calculate_interval finished
  calculate_interval-kept s now unix v e = rw e (
      kept-append v.statistics _
      ∙ ap (λ x. kept v.statistics + x)
          (measured-amount s v.interval_id (some v.last_send_timestamp) (some unix)))

  pub calculate_interval-finished :
      (s : Statistic) (now : ℕ) (unix : F64) (v : StatisticInterval)
      → finished v ≡ true
      → calculate_interval fl s now unix v ≡ record v { last_send_instant = now }
  unfolding calculate_interval finished
  calculate_interval-finished s now unix v e = rw e refl

  measured-IsSized :
      (r : Bool) (s : Statistic) (k : ℕ) (a b : Option F64)
      → IsSized r s
      → IsSized r
          (calculate_statistics fl (set_test_duration fl a b (record s { interval_id = k })))
  unfolding calculate_statistics set_test_duration
  measured-IsSized true s k a b h = record { setting = h.setting; slots = h.slots }
  measured-IsSized false s k a b h = record { setting = h.setting; slots = h.slots }

  pub calculate_interval-AllSized :
      (r : Bool) (s : Statistic) (now : ℕ) (unix : F64) (v : StatisticInterval)
      → finished v ≡ false
      → AllSized r v.statistics
      → IsSized r s
      → AllSized r (calculate_interval fl s now unix v).statistics
        × (0 < length (calculate_interval fl s now unix v).statistics)
  unfolding calculate_interval finished
  calculate_interval-AllSized r s now unix v e h k = rw e (
    AllSized-append r v.statistics _ h
        (measured-IsSized r s v.interval_id (some v.last_send_timestamp) (some unix) k),
    omega (
      arith,
      length-append v.statistics (
          calculate_statistics fl (
            set_test_duration fl (some v.last_send_timestamp) (some unix)
              (record s { interval_id = v.interval_id }))
          ∷ []),
    ),
  )

  pub new-datagrams : (p : Parameter) (now : F64) → (counters (new p now)).datagrams ≡ 0
  unfolding new
  new-datagrams p now = refl

  -- The sum counts the datagrams of its parts.
  pub sum_from-kept :
      (r : Bool) (acc : Statistic) (ss : List Statistic)
      → IsSized r acc
      → AllSized r ss
      → acc.amount_datagrams + kept ss < 2 ^ 64
      → (st : Statistic) × (sum_from fl acc ss ≡ ok st)
        × IsSized r st
        × (st.amount_datagrams ≡ acc.amount_datagrams + kept ss)
  sum_from-kept r acc ss h hs few =
      let (st, e, h', c) = sum_from-total fl r acc ss h hs in
      (st, e, h', ap (λ x. x.datagrams) c ∙ total-datagrams (counters acc) ss few)
