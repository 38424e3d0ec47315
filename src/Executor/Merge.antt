-- ===== src/Executor/Merge.antt =====
-- Putting the statistics of the threads together: src/executor.rs, with the numbers that
-- src/util/statistic.rs gives to the intervals of a thread.
use nperf.Base.{
  ℕ, zero, suc, ◌+◌, ◌^◌, ◌≤◌, ◌<◌, ◌≡◌, refl, ap, sym, subst, ◌∙◌, inl, inr, Bool, false, not,
  List, [], ◌∷◌, some, arith, get_elem?, get_elem?-some, set, length, length-set, range_from, sub64,
  ◌==◌, Bool-cases, ==_iff, ok, err, fault, if◌then◌else◌,
}
use nperf.Config.Floats.{Floats}
use nperf.Statistic.{Statistic, add}
use nperf.Statistic.Counters.{IsSized, AllSized, add-total}
use nperf.Statistic.Kept.{kept}
use nperf.Statistic.Interval.{ids}
use nperf.Executor.{ThreadResult, merge_interval, merge_intervals, merge_threads}

AllSized-get :
    (r : Bool) (vs : List Statistic) (i : ℕ) (v : Statistic)
    → AllSized r vs
    → get_elem? vs i ≡ some v
    → IsSized r v
AllSized-get r [] i v h e = cc
AllSized-get r (x ∷ vs) zero v h e = (let q : x ≡ v = cc in subst (IsSized r) q h.0)
AllSized-get r (x ∷ vs) (suc i) v h e = AllSized-get r vs i v h.1 e

AllSized-set :
    (r : Bool) (vs : List Statistic) (i : ℕ) (t : Statistic)
    → AllSized r vs
    → IsSized r t
    → AllSized r (set vs i t)
AllSized-set r [] i t h k = tt
AllSized-set r (x ∷ vs) zero t h k = (k, h.1)
AllSized-set r (x ∷ vs) (suc i) t h k = (h.0, AllSized-set r vs i t h.1 k)

kept-set :
    (vs : List Statistic) (i : ℕ) (v t : Statistic) (n : ℕ)
    → get_elem? vs i ≡ some v
    → t.amount_datagrams ≡ v.amount_datagrams + n
    → kept (set vs i t) ≡ kept vs + n
kept-set [] i v t n e k = cc
kept-set (x ∷ vs) zero v t n e k = (let q : x ≡ v = cc in rw q (omega arith))
kept-set (x ∷ vs) (suc i) v t n e k = omega (arith, kept-set vs i v t n e k)

kept-get :
    (vs : List Statistic) (i : ℕ) (v : Statistic)
    → get_elem? vs i ≡ some v
    → v.amount_datagrams ≤ kept vs
kept-get [] i v e = cc
kept-get (x ∷ vs) zero v e = (let q : x ≡ v = cc in rw (sym q) (omega arith))
kept-get (x ∷ vs) (suc i) v e = omega (arith, kept-get vs i v e)

-- The numbers of the intervals are places of a list of `n`.
abbrev pub InRange : ℕ → List Statistic → Type 0
InRange n [] = Unit {0}
InRange n (s ∷ ss) = (1 ≤ s.interval_id) × (s.interval_id ≤ n) × InRange n ss

pub numbered-InRange :
    (ss : List Statistic) (j k n : ℕ)
    → ids ss ≡ range_from j k
    → 1 ≤ j
    → j + k ≤ n + 1
    → InRange n ss
numbered-InRange [] j k n e l m = tt
numbered-InRange (s ∷ ss) j zero n e l m = cc
numbered-InRange (s ∷ ss) j (suc k) n e l m =
    let q : s.interval_id ≡ j = cc in
    let rest : ids ss ≡ range_from (suc j) k = cc in
    (omega arith, omega arith, numbered-InRange ss (suc j) k n rest (omega arith) (omega arith))

module _ (fl : Floats) (r : Bool) where
  merge_interval-at :
      (vs : List Statistic) (s v t : Statistic)
      → get_elem? vs (sub64 s.interval_id 1) ≡ some v
      → add fl v s ≡ ok t
      → merge_interval fl vs s ≡ ok (set vs (sub64 s.interval_id 1) t)
  unfolding merge_interval
  merge_interval-at vs s v t e q = rw (e, merge_interval, q) refl

  merge_interval-kept :
      (vs : List Statistic) (s : Statistic)
      → AllSized r vs
      → IsSized r s
      → 1 ≤ s.interval_id
      → s.interval_id ≤ length vs
      → length vs < 2 ^ 64
      → kept vs + s.amount_datagrams < 2 ^ 64
      → (ws : List Statistic) × (merge_interval fl vs s ≡ ok ws)
        × (length ws ≡ length vs)
        × AllSized r ws
        × (kept ws ≡ kept vs + s.amount_datagrams)
  merge_interval-kept vs s hs h low high few room =
      let i = sub64 s.interval_id 1 in
      let (v, e) = get_elem?-some vs i (omega arith) in
      let hv = AllSized-get r vs i v hs e in
      let (t, q, ht, c) = add-total fl r v s hv h in
      let d : t.amount_datagrams ≡ v.amount_datagrams + s.amount_datagrams =
        ap (λ x. x.datagrams) c ∙ omega (arith, kept-get vs i v e) in
      (
        set vs i t,
        merge_interval-at vs s v t e q,
        length-set vs i t,
        AllSized-set r vs i t hs ht,
        kept-set vs i v t s.amount_datagrams e d,
      )

  merge_intervals-kept :
      (ss vs : List Statistic)
      → AllSized r vs
      → AllSized r ss
      → InRange (length vs) ss
      → length vs < 2 ^ 64
      → kept vs + kept ss < 2 ^ 64
      → (ws : List Statistic) × (merge_intervals fl vs ss ≡ ok ws)
        × (length ws ≡ length vs)
        × AllSized r ws
        × (kept ws ≡ kept vs + kept ss)
  unfolding merge_intervals
  merge_intervals-kept [] vs hs hss range few room = (vs, refl, refl, hs, omega arith)
  merge_intervals-kept (s ∷ ss) vs hs hss (low, high, range) few room =
      let (ws, e, l, hw, k) = merge_interval-kept vs s hs hss.0 low high few (omega arith) in
      let (xs, e', l', hx, k') =
        merge_intervals-kept ss ws hw hss.1 (subst (λ n. InRange n ss) (sym l) range) (omega arith)
          (omega arith) in
      (xs, rw e e', l' ∙ l, hx, omega arith)

nonzero : (n : ℕ) → 0 < n → (n == 0) ≡ false
nonzero n h = elim (Bool-cases (n == 0)) [
  | inl e ↦ absurd (omega (arith, (==_iff n 0).0 e))
  | inr e ↦ e
]

-- The datagrams of the threads that were a success, in their final statistics and in their intervals.
abbrev pub reported : List ThreadResult → ℕ
reported [] = 0
reported (err e ∷ rs) = reported rs
reported (fault x ∷ rs) = reported rs
reported (ok (s, ss) ∷ rs) = s.amount_datagrams + reported rs

abbrev pub reported_in_intervals : List ThreadResult → ℕ
reported_in_intervals [] = 0
reported_in_intervals (err e ∷ rs) = reported_in_intervals rs
reported_in_intervals (fault x ∷ rs) = reported_in_intervals rs
reported_in_intervals (ok (s, ss) ∷ rs) = kept ss + reported_in_intervals rs

-- A thread's intervals are numbered from 1 without a gap, and are at most `n`; its statistics have the
-- arrays that the settings ask for.
abbrev pub Numbered : Bool → ℕ → List ThreadResult → Type 0
Numbered r n [] = Unit {0}
Numbered r n (err e ∷ rs) = Numbered r n rs
Numbered r n (fault x ∷ rs) = Numbered r n rs
Numbered r n (ok (s, ss) ∷ rs) =
    ((k : ℕ) × (ids ss ≡ range_from 1 k) × (k ≤ n)) × IsSized r s × AllSized r ss × Numbered r n rs

module _ (fl : Floats) (r : Bool) where
  -- What is merged: nothing where no intervals are asked for.
  merged_intervals :
      (ss vs : List Statistic) (k : ℕ)
      → AllSized r vs
      → AllSized r ss
      → ids ss ≡ range_from 1 k
      → k ≤ length vs
      → length vs < 2 ^ 64
      → kept vs + kept ss < 2 ^ 64
      → (ws : List Statistic) × ((if not (length vs == 0) then merge_intervals fl vs ss else ok vs)
          ≡ ok ws)
        × (length ws ≡ length vs)
        × AllSized r ws
        × (kept ws ≡ kept vs + kept ss)
  merged_intervals [] [] zero hs hss e l few room = ([], refl, refl, tt, omega arith)
  merged_intervals (s ∷ ss) [] zero hs hss e l few room = cc
  merged_intervals ss [] (suc k) hs hss e l few room = absurd (omega arith)
  merged_intervals ss (v ∷ vs) k hs hss e l few room =
      rw (nonzero (length (v ∷ vs)) (omega arith)) (
        merge_intervals-kept fl r ss (v ∷ vs) hs hss
          (numbered-InRange ss 1 k (length (v ∷ vs)) e (omega arith) (omega arith)) few room)

  -- The statistics of the threads are put together without a panic, in particular every interval of a
  -- thread has its place: the final statistic counts the datagrams of all threads that were a success, and the
  -- intervals those of all their intervals. The intervals of each are numbered from 1 without a
  -- gap and are no more than there are places, the statistics have the arrays that the settings ask
  -- for, and so have the results, and the sums are below 2^64.
  pub merge_threads-kept :
      (rs : List ThreadResult) (final : Statistic) (vs : List Statistic)
      → IsSized r final
      → AllSized r vs
      → Numbered r (length vs) rs
      → length vs < 2 ^ 64
      → final.amount_datagrams + reported rs < 2 ^ 64
      → kept vs + reported_in_intervals rs < 2 ^ 64
      → (st : Statistic) × (ws : List Statistic) × (merge_threads fl (length vs) final vs rs
          ≡ ok (st, ws))
        × (length ws ≡ length vs)
        × (st.amount_datagrams ≡ final.amount_datagrams + reported rs)
        × (kept ws ≡ kept vs + reported_in_intervals rs)
        × IsSized r st
        × AllSized r ws
  unfolding merge_threads
  merge_threads-kept [] final vs hf hv nums few a b =
      (final, vs, refl, refl, omega arith, omega arith, hf, hv)
  merge_threads-kept (err e ∷ rs) final vs hf hv nums few a b =
      merge_threads-kept rs final vs hf hv nums few a b
  merge_threads-kept (fault x ∷ rs) final vs hf hv nums few a b =
      merge_threads-kept rs final vs hf hv nums few a b
  merge_threads-kept (ok (s, ss) ∷ rs) final vs hf hv ((k, e, l), hs, hss, nums) few a b =
      let (t, q, ht, c) = add-total fl r final s hf hs in
      let d : t.amount_datagrams ≡ final.amount_datagrams + s.amount_datagrams =
        ap (λ x. x.datagrams) c ∙ omega arith in
      let (ws, w, lw, hw, kw) = merged_intervals ss vs k hv hss e l few (omega arith) in
      let (st, xs, m, lx, da, ka, hs', hw') =
        merge_threads-kept rs t ws ht hw (subst (λ n. Numbered r n rs) (sym lw) nums) (omega arith)
          (omega arith) (omega arith) in
      (
        st,
        xs,
        rw (q, w) (subst (λ n. merge_threads fl n t ws rs ≡ ok (st, xs)) lw m),
        lx ∙ lw,
        omega arith,
        omega arith,
        hs',
        hw',
      )
