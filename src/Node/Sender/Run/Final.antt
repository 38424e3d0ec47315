-- ===== src/Node/Sender/Run/Final.antt =====
-- What `Sender::run` of src/node/sender.rs makes of the statistics after its loop.
use nperf.Base.{
  ℕ, ◌^◌, ◌<◌, ◌≡◌, refl, ap, ◌∙◌, ◌⊎◌, inl, inr, Bool, true, false, List, [], ◌∷◌, some, arith,
  length, ok,
}
use nperf.Config.Floats.{F64, zero_f64, Floats}
use nperf.Statistic
use nperf.Statistic.{Statistic, sum_from, set_test_duration, calculate_statistics}
use nperf.Statistic.Counters.{IsSized, AllSized, new-IsSized}
use nperf.Statistic.Interval.{calculate_interval, finished}
use nperf.Statistic.Kept.{
  kept, calculate_interval-kept, calculate_interval-AllSized, new-datagrams, sum_from-kept,
}
use nperf.Node.Sender.{Sender}
use nperf.Node.Sender.Run.{close_interval, final_statistic}
use nperf.Node.Sender.Run.Accounts.{IsAccounted}

module _ (fl : Floats) where
  final_statistic-sum :
      (now unix : F64) (s : Sender)
      → 0 < length s.statistic_interval.statistics
      → final_statistic fl now unix s
        ≡ sum_from fl (Statistic.new s.parameter now) s.statistic_interval.statistics
  unfolding final_statistic
  final_statistic-sum now unix s h = go s.statistic_interval.statistics refl h
    where
      go :
          (ss : List Statistic)
          → s.statistic_interval.statistics ≡ ss
          → 0 < length ss
          → elim ss [
            | [] ↦ ok (
                set_test_duration fl
                  (some s.statistic_interval.last_send_timestamp)
                  (some unix)
                  s.statistic)
            | x ∷ xs ↦ sum_from fl (Statistic.new s.parameter now) (x ∷ xs)
          ]
            ≡ sum_from fl (Statistic.new s.parameter now) ss
      go [] e h = absurd (omega arith)
      go (x ∷ xs) e h = refl

  -- The sum of kept statistics counts their datagrams.
  sum-kept :
      (r : Bool) (now : F64) (s : Sender)
      → s.parameter.uring_parameter.record_utilization ≡ r
      → AllSized r s.statistic_interval.statistics
      → kept s.statistic_interval.statistics < 2 ^ 64
      → (st : Statistic) × (sum_from fl
            (Statistic.new s.parameter now)
            s.statistic_interval.statistics
          ≡ ok st)
        × (st.amount_datagrams ≡ kept s.statistic_interval.statistics)
  sum-kept r now s p h few =
      let z = new-datagrams fl s.parameter now in
      let (st, e, _, c) =
        sum_from-kept fl r (Statistic.new s.parameter now) s.statistic_interval.statistics
          (new-IsSized r s.parameter now p) h (omega arith) in
      (st, e, omega arith)

  -- Without intervals.
  final-whole :
      (c : ℕ) (u now unix : F64) (s : Sender)
      → fl.feq s.statistic_interval.output_interval zero_f64 ≡ true
      → s.statistic_interval.statistics ≡ []
      → (st : Statistic) × (final_statistic fl now unix (close_interval fl c u s) ≡ ok st)
        × (st.amount_datagrams ≡ s.statistic.amount_datagrams)
  unfolding final_statistic close_interval set_test_duration
  final-whole c u now unix s e n = (
    set_test_duration fl (some s.statistic_interval.last_send_timestamp) (some unix) s.statistic,
    rw (e, n) refl,
    refl,
  )

  close_interval-last :
      (c : ℕ) (u : F64) (s : Sender)
      → fl.feq s.statistic_interval.output_interval zero_f64 ≡ false
      → finished s.statistic_interval ≡ false
      → close_interval fl c u s ≡ record s {
        statistic_interval = calculate_interval fl s.statistic c u s.statistic_interval;
      }
  unfolding close_interval
  close_interval-last c u s e n = rw (e, n) refl

  -- After the loop, the last interval is closed and the intervals are summed up, and the final statistic counts as
  -- many datagrams as packet ids were given out. The counters were in step with the ids; either there are no
  -- intervals, and then no statistic was kept, or the planned ones are not over; the ids are
  -- below 2^64, and all statistics have the arrays that the settings ask for.
  pub final_statistic-next_packet_id :
      (r : Bool) (c : ℕ) (u now unix : F64) (s : Sender)
      → IsAccounted fl s
      → (fl.feq s.statistic_interval.output_interval zero_f64 ≡ true)
          × (s.statistic_interval.statistics ≡ [])
        ⊎ (fl.feq s.statistic_interval.output_interval zero_f64 ≡ false)
          × (finished s.statistic_interval ≡ false)
      → s.next_packet_id < 2 ^ 64
      → s.parameter.uring_parameter.record_utilization ≡ r
      → IsSized r s.statistic
      → AllSized r s.statistic_interval.statistics
      → (st : Statistic) × (final_statistic fl now unix (close_interval fl c u s) ≡ ok st)
        × (st.amount_datagrams ≡ s.next_packet_id)
  final_statistic-next_packet_id r c u now unix s a (inl (e, n)) few p h hs =
      let (st, q, k) = final-whole c u now unix s e n in
      (st, q, elim a.exact [ inl x ↦ k ∙ omega (arith, ap kept n) | inr x ↦ absurd (cc (e, x.1)) ])
  final_statistic-next_packet_id r c u now unix s a (inr (e, n)) few p h hs =
      let v = calculate_interval fl s.statistic c u s.statistic_interval in
      let s' : Sender = record s { statistic_interval = v } in
      let k = calculate_interval-kept fl s.statistic c u s.statistic_interval n in
      let (hs', some_kept) =
        calculate_interval-AllSized fl r s.statistic c u s.statistic_interval n hs h in
      let (st, q, d) = sum-kept r now s' p hs' (omega (arith, a.bound)) in
      (
        st,
        ap (final_statistic fl now unix) (close_interval-last c u s e n)
            ∙ final_statistic-sum now unix s' some_kept
            ∙ q,
        elim a.exact [ inl x ↦ d ∙ omega (arith, k, x) | inr x ↦ absurd (cc (n, x.0)) ],
      )
