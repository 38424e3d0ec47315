-- ===== src/Statistic/Interval.antt =====
-- StatisticInterval of src/util/statistic.rs: the statistics of the intervals of one thread.
use nperf.Base.{
  ℕ, ◌+◌, ◌*◌, ◌-◌, ◌^◌, ◌≤◌, ◌<◌, ◌≡◌, refl, ap, Bool, true, List, [], ◌∷◌, ◌++◌, map, Option,
  none, some, arith, leb, lt→leb, le→leb, leb→le, ◌↔◌, ◌∙◌, sym, ap₂, if◌then◌else◌, add64, length,
  range_from, min, zero, suc,
}
use native.Mathlib.Decide.{dec_lt}
use nperf.Config.Floats.{F64, zero_f64, Floats}
use nperf.Statistic.{Statistic, set_test_duration, calculate_statistics}

pub record StatisticInterval : Type 0 where
  pub interval_id : ℕ
  pub output_interval : F64
  pub last_send_instant : ℕ
  pub last_send_timestamp : F64
  pub total_interval_outputs : ℕ
  pub amount_interval_outputs : ℕ
  pub statistics : List Statistic

-- An instant is in nanoseconds.
abbrev pub milliseconds : ℕ → ℕ
milliseconds n = n * 1_000_000

unfoldable pub finished : StatisticInterval → Bool
finished v = leb v.total_interval_outputs v.amount_interval_outputs

module _ (fl : Floats) where
  unfoldable pub new : ℕ → F64 → ℕ → F64 → StatisticInterval
  new last_send_instant output_interval runtime_length now = record {
    interval_id = 1;
    output_interval = output_interval;
    last_send_instant = last_send_instant;
    last_send_timestamp = now;
    amount_interval_outputs = 0;
    total_interval_outputs =
        if fl.feq output_interval zero_f64
        then 0
        else fl.to_u64 (fl.floor (fl.div (fl.of_u64 runtime_length) output_interval));
    statistics = [];
  }

  -- The offset goes to the instant in milliseconds, and is added to the timestamp as it is.
  unfoldable pub start : Option ℕ → ℕ → F64 → StatisticInterval → StatisticInterval
  start offset instant now v =
      let ms : ℕ = elim offset [ none ↦ 0 | some n ↦ n ] in
      record v {
        last_send_instant = instant + milliseconds ms;
        last_send_timestamp = fl.add now (fl.of_u64 ms);
      }

  -- `current_time` and `current_time_unix` are the clocks at the call.
  unfoldable pub calculate_interval : Statistic → ℕ → F64 → StatisticInterval → StatisticInterval
  calculate_interval statistic current_time current_time_unix v =
      if leb v.total_interval_outputs v.amount_interval_outputs
      then record v { last_send_instant = current_time }
      else (let timed =
            set_test_duration fl (some v.last_send_timestamp) (some current_time_unix)
              (record statistic { interval_id = v.interval_id }) in
          record v {
            last_send_instant = current_time;
            last_send_timestamp = current_time_unix;
            amount_interval_outputs = add64 v.amount_interval_outputs 1;
            interval_id = add64 v.interval_id 1;
            statistics = v.statistics ++ (calculate_statistics fl timed ∷ []);
          })

abbrev pub ids : List Statistic → List ℕ
ids = map λ s. s.interval_id

-- The statistics kept so far are numbered 1, 2, … without a gap, and no more than planned.
pub record IsNumbered (v : StatisticInterval) : Type 0 where
  pub numbers : ids v.statistics ≡ range_from 1 v.amount_interval_outputs
  pub next : v.interval_id ≡ v.amount_interval_outputs + 1
  pub planned : v.amount_interval_outputs ≤ v.total_interval_outputs
  pub small : v.total_interval_outputs < 2 ^ 64 - 1

range_from-suc : (k n : ℕ) → range_from k (suc n) ≡ range_from k n ++ ((k + n) ∷ [])
range_from-suc k zero = ap (λ x. x ∷ []) (omega arith)
range_from-suc k (suc n) =
    ap (◌∷◌ k) (range_from-suc (suc k) n ∙ ap (λ x. range_from (suc k) n ++ (x ∷ [])) (omega arith))

ids-append :
    (ss : List Statistic) (s : Statistic) → ids (ss ++ (s ∷ [])) ≡ ids ss ++ (s.interval_id ∷ [])
ids-append [] s = refl
ids-append (x ∷ ss) s = ap (◌∷◌ x.interval_id) (ids-append ss s)

module _ (fl : Floats) where
  -- The new record starts with no statistic, and numbered from 1.
  pub new-IsNumbered :
      (instant : ℕ) (output_interval : F64) (runtime : ℕ) (now : F64)
      → (new fl instant output_interval runtime now).total_interval_outputs < 2 ^ 64 - 1
      → IsNumbered (new fl instant output_interval runtime now)
  unfolding new
  new-IsNumbered instant output_interval runtime now h = record {
    numbers = refl;
    next = omega arith;
    planned = omega arith;
    small = h;
  }

  measured-interval_id :
      (s : Statistic) (k : ℕ) (a b : Option F64)
      → (calculate_statistics fl
          (set_test_duration fl a b (record s { interval_id = k }))).interval_id
        ≡ k
  unfolding calculate_statistics set_test_duration
  measured-interval_id s k a b = refl

  abbrev measured : Statistic → F64 → StatisticInterval → Statistic
  measured s u v = calculate_statistics fl (
      set_test_duration fl (some v.last_send_timestamp) (some u)
        (record s { interval_id = v.interval_id }))

  calculate_interval-IsNumbered_open :
      (s : Statistic) (t : ℕ) (u : F64) (v : StatisticInterval)
      → IsNumbered v
      → v.amount_interval_outputs < v.total_interval_outputs
      → (IsNumbered (calculate_interval fl s t u v))
        × ((calculate_interval fl s t u v).amount_interval_outputs ≡ v.amount_interval_outputs + 1)
        × ((calculate_interval fl s t u v).total_interval_outputs ≡ v.total_interval_outputs)
  unfolding calculate_interval
  calculate_interval-IsNumbered_open s t u v h more =
      let one : add64 v.amount_interval_outputs 1 ≡ suc v.amount_interval_outputs = omega arith in
      rw (lt→leb v.total_interval_outputs v.amount_interval_outputs more) (
        record {
          numbers =
              ids-append v.statistics (measured s u v)
              ∙ ap₂ (λ x y. x ++ (y ∷ [])) h.numbers
                  (measured-interval_id s v.interval_id (some v.last_send_timestamp) (some u)
                    ∙ omega arith)
              ∙ sym (range_from-suc 1 v.amount_interval_outputs)
              ∙ ap (range_from 1) (sym one);
          next = omega arith;
          planned = omega arith;
          small = h.small;
        },
        omega arith,
        refl,
      )

  calculate_interval-IsNumbered_full :
      (s : Statistic) (t : ℕ) (u : F64) (v : StatisticInterval)
      → IsNumbered v
      → v.total_interval_outputs ≤ v.amount_interval_outputs
      → (IsNumbered (calculate_interval fl s t u v))
        × ((calculate_interval fl s t u v).amount_interval_outputs ≡ v.amount_interval_outputs)
        × ((calculate_interval fl s t u v).total_interval_outputs ≡ v.total_interval_outputs)
  unfolding calculate_interval
  calculate_interval-IsNumbered_full s t u v h full =
      rw (le→leb v.total_interval_outputs v.amount_interval_outputs full) (
        record { numbers = h.numbers; next = h.next; planned = h.planned; small = h.small },
        refl,
        refl,
      )

  calculate_interval-IsNumbered :
      (s : Statistic) (t : ℕ) (u : F64) (v : StatisticInterval)
      → IsNumbered v
      → (IsNumbered (calculate_interval fl s t u v))
        × ((calculate_interval fl s t u v).amount_interval_outputs
            ≡ min v.total_interval_outputs (v.amount_interval_outputs + 1))
        × ((calculate_interval fl s t u v).total_interval_outputs ≡ v.total_interval_outputs)
  calculate_interval-IsNumbered s t u v h =
      elim (dec_lt v.amount_interval_outputs v.total_interval_outputs) [
        | yes more ↦
            let (k, a, b) = calculate_interval-IsNumbered_open s t u v h more in (k, omega arith, b)
        | no full ↦
            let (k, a, b) = calculate_interval-IsNumbered_full s t u v h (omega arith) in
            (k, omega arith, b)
      ]

  -- A call of `calculate_interval`: the statistic so far, and the two clocks.
  abbrev pub IntervalCall : Type 0
  IntervalCall = Statistic × ℕ × F64

  unfoldable pub calculate_intervals : StatisticInterval → List IntervalCall → StatisticInterval
  calculate_intervals v [] = v
  calculate_intervals v ((s, t, u) ∷ cs) = calculate_intervals (calculate_interval fl s t u v) cs

  -- Every sequence of calls keeps the statistics numbered without a gap, and makes one new
  -- statistic for each call until the planned number is reached, and none after.
  pub calculate_intervals-IsNumbered :
      (cs : List IntervalCall) (v : StatisticInterval)
      → IsNumbered v
      → let w = calculate_intervals v cs in
        (IsNumbered w)
        × (w.total_interval_outputs ≡ v.total_interval_outputs)
        × (w.amount_interval_outputs
            ≡ min v.total_interval_outputs (v.amount_interval_outputs + length cs))
  unfolding calculate_intervals
  calculate_intervals-IsNumbered [] v h = (h, refl, omega arith)
  calculate_intervals-IsNumbered ((s, t, u) ∷ cs) v h =
      let (h', a, b) = calculate_interval-IsNumbered s t u v h in
      let (k, c, d) = calculate_intervals-IsNumbered cs (calculate_interval fl s t u v) h' in
      (k, c ∙ b, omega arith)

  new-amount :
      (instant : ℕ) (output_interval : F64) (runtime : ℕ) (now : F64)
      → (new fl instant output_interval runtime now).amount_interval_outputs ≡ 0
  unfolding new
  new-amount instant output_interval runtime now = refl

  -- A thread that makes n interval calls from the start keeps the statistics numbered 1 to the
  -- smaller of n and the planned number, and has finished exactly if n reaches the plan.
  pub intervals_from_new :
      (instant : ℕ) (output_interval : F64) (runtime : ℕ) (now : F64) (cs : List IntervalCall)
      → (new fl instant output_interval runtime now).total_interval_outputs < 2 ^ 64 - 1
      → let planned = (new fl instant output_interval runtime now).total_interval_outputs in
        let v = calculate_intervals (new fl instant output_interval runtime now) cs in
        (ids v.statistics ≡ range_from 1 (min planned (length cs)))
        × ((finished v ≡ true) ↔ (planned ≤ length cs))
  unfolding finished
  intervals_from_new instant output_interval runtime now cs h =
      let (k, c, d) =
        calculate_intervals-IsNumbered cs (new fl instant output_interval runtime now)
          (new-IsNumbered instant output_interval runtime now h) in
      let z = new-amount instant output_interval runtime now in
      (
        k.numbers ∙ ap (range_from 1) (omega arith),
        (λ e. let q = leb→le _ _ e in omega arith, λ e. le→leb _ _ (omega arith)),
      )
