-- ===== src/Executor/Places.antt =====
-- Which place each interval of a thread goes to when src/executor.rs puts the statistics together.
use nperf.Base.{
  ℕ, zero, suc, ◌+◌, ◌%◌, ◌^◌, ◌≤◌, ◌<◌, ◌≡◌, refl, ap, sym, subst, ◌∙◌, inl, inr, Bool, not, max,
  List, [], ◌∷◌, map, some, arith, get_elem?, set, range_from, sub64, ◌==◌, ne→==, Bool-cases,
  ==_iff, bind_ok, ok_inj, Option-cases, ok, err, fault, if◌then◌else◌, add64,
}
use nperf.Config.{Parameter}
use nperf.Config.Floats.{F64, Floats}
use nperf.Statistic
use nperf.Statistic.{Statistic, add}
use nperf.Statistic.Interval.{ids}
use nperf.Statistic.Kept.{kept}
use nperf.Executor.{ThreadResult, empty_intervals, merge_interval, merge_intervals, merge_threads}
use nperf.Executor.Merge.{InRange, Numbered, numbered-InRange, reported_in_intervals}

-- The datagrams of a statistic, if it has this number.
abbrev numbered_amount : ℕ → Statistic → ℕ
numbered_amount n s = if s.interval_id == n then s.amount_datagrams else 0

-- The datagrams of all statistics with this number.
abbrev amount_numbered : ℕ → List Statistic → ℕ
amount_numbered n [] = 0
amount_numbered n (s ∷ ss) = numbered_amount n s + amount_numbered n ss

-- The datagrams in the intervals with this number, of all threads that were a success.
abbrev pub amount_in_interval : ℕ → List ThreadResult → ℕ
amount_in_interval n [] = 0
amount_in_interval n (err e ∷ rs) = amount_in_interval n rs
amount_in_interval n (fault x ∷ rs) = amount_in_interval n rs
amount_in_interval n (ok (s, ss) ∷ rs) = amount_numbered n ss + amount_in_interval n rs

-- The statistics are numbered from `j` on, and the one with number `k` counts `f k` datagrams.
abbrev pub Placed : (ℕ → ℕ) → ℕ → List Statistic → Type 0
Placed f j [] = Unit {0}
Placed f j (v ∷ vs) = (v.interval_id ≡ j) × (v.amount_datagrams ≡ f j) × Placed f (suc j) vs

-- The same up to an overflow of the counters.
abbrev Wrapped : (ℕ → ℕ) → ℕ → List Statistic → Type 0
Wrapped f = Placed (λ k. f k % 2 ^ 64)

Placed-eq :
    (f g : ℕ → ℕ) (j : ℕ) (vs : List Statistic)
    → ((k : ℕ) → f k ≡ g k)
    → Placed f j vs
    → Placed g j vs
Placed-eq f g j [] e h = tt
Placed-eq f g j (v ∷ vs) e (i, a, h) = (i, a ∙ e j, Placed-eq f g (suc j) vs e h)

-- Another statistic, of the number `n`, counts at one place only.
skipped :
    (f : ℕ → ℕ) (s : Statistic) (j : ℕ) (vs : List Statistic)
    → s.interval_id < j
    → Wrapped f j vs
    → Wrapped (λ k. f k + numbered_amount k s) j vs
skipped f s j [] l h = tt
skipped f s j (v ∷ vs) l (i, a, h) = (
  i,
  rw (ne→== (s.interval_id) j (λ e. omega arith)) (a ∙ ap (λ x. x % 2 ^ 64) (omega arith)),
  skipped f s (suc j) vs (omega arith) h,
)

set-Wrapped :
    (f : ℕ → ℕ) (s t : Statistic) (i j : ℕ) (vs : List Statistic)
    → s.interval_id ≡ j + i
    → t.interval_id ≡ j + i
    → t.amount_datagrams ≡ (f (j + i) + s.amount_datagrams) % 2 ^ 64
    → Wrapped f j vs
    → Wrapped (λ k. f k + numbered_amount k s) j (set vs i t)
set-Wrapped f s t i j [] e g a h = tt
set-Wrapped f s t zero j (v ∷ vs) e g a h =
    let z : j + 0 ≡ j = omega arith in
    let same : s.interval_id ≡ j = omega arith in
    (
      omega arith,
      rw ((==_iff s.interval_id j).1 same) (rw z at a),
      skipped f s (suc j) vs (omega arith) h.2,
    )
set-Wrapped f s t (suc i) j (v ∷ vs) e g a (n, b, h) =
    let z : j + suc i ≡ suc j + i = omega arith in
    (
      n,
      rw (ne→== s.interval_id j (λ q. omega arith)) (b ∙ ap (λ x. x % 2 ^ 64) (omega arith)),
      set-Wrapped f s t i (suc j) vs (omega arith) (omega arith) (rw z at a) h,
    )

Wrapped-get :
    (f : ℕ → ℕ) (i j : ℕ) (vs : List Statistic) (v : Statistic)
    → get_elem? vs i ≡ some v
    → Wrapped f j vs
    → (v.interval_id ≡ j + i) × (v.amount_datagrams ≡ f (j + i) % 2 ^ 64)
Wrapped-get f i j [] v e h = cc
Wrapped-get f zero j (x ∷ vs) v e (n, a, h) =
    let z : j + 0 ≡ j = omega arith in let q : x ≡ v = cc in rw (z, sym q) (n, a)
Wrapped-get f (suc i) j (x ∷ vs) v e (n, a, h) =
    let z : j + suc i ≡ suc j + i = omega arith in rw z (Wrapped-get f i (suc j) vs v e h)

module _ (fl : Floats) where
  add-numbers :
      (a b c : Statistic)
      → add fl a b ≡ ok c
      → (c.interval_id ≡ max a.interval_id b.interval_id)
        × (c.amount_datagrams ≡ add64 a.amount_datagrams b.amount_datagrams)
  unfolding add
  add-numbers a b c e = ground arith

  merge_interval-Wrapped :
      (f : ℕ → ℕ) (vs : List Statistic) (s : Statistic) (ws : List Statistic)
      → 1 ≤ s.interval_id
      → s.interval_id < 2 ^ 64
      → Wrapped f 1 vs
      → merge_interval fl vs s ≡ ok ws
      → Wrapped (λ k. f k + numbered_amount k s) 1 ws
  unfolding merge_interval
  merge_interval-Wrapped f vs s ws low small h e =
      let i = sub64 s.interval_id 1 in
      elim (Option-cases (get_elem? vs i)) [
        | inl q ↦ cc (rw (q, merge_interval) at e)
        | inr (v, q) ↦
            let (t, a, b) = bind_ok (add fl v s) _ ws (rw (q, merge_interval) at e) in
            let (n, m) = Wrapped-get f i 1 vs v q h in
            let (number, amount) = add-numbers v s t a in
            subst (Wrapped (λ k. f k + numbered_amount k s) 1) (ok_inj b)
              (set-Wrapped f s t i 1 vs (omega arith) (omega arith) (omega arith) h)
      ]

  merge_intervals-Wrapped :
      (f : ℕ → ℕ) (n : ℕ) (ss vs ws : List Statistic)
      → n < 2 ^ 64
      → InRange n ss
      → Wrapped f 1 vs
      → merge_intervals fl vs ss ≡ ok ws
      → Wrapped (λ k. f k + amount_numbered k ss) 1 ws
  unfolding merge_intervals
  merge_intervals-Wrapped f n [] vs ws few range h e =
      subst (Wrapped (λ k. f k + 0) 1) (ok_inj e)
        (Placed-eq _ _ 1 vs (λ k. ap (λ x. x % 2 ^ 64) (omega arith)) h)
  merge_intervals-Wrapped f n (s ∷ ss) vs ws few (low, high, range) h e =
      let (us, a, b) = bind_ok (merge_interval fl vs s) _ ws e in
      Placed-eq _ _ 1 ws (λ k. ap (λ x. x % 2 ^ 64) (omega arith))
        (merge_intervals-Wrapped (λ k. f k + numbered_amount k s) n ss us ws few range
          (merge_interval-Wrapped f vs s us low (omega arith) h a) b)

  merged-Wrapped :
      (f : ℕ → ℕ) (n k : ℕ) (ss vs ws : List Statistic)
      → n < 2 ^ 64
      → ids ss ≡ range_from 1 k
      → k ≤ n
      → Wrapped f 1 vs
      → (if not (n == 0) then merge_intervals fl vs ss else ok vs) ≡ ok ws
      → Wrapped (λ k. f k + amount_numbered k ss) 1 ws
  merged-Wrapped f n k ss vs ws few numbers l h e = elim (Bool-cases (n == 0)) [
    | inr q ↦
        merge_intervals-Wrapped f n ss vs ws few
          (numbered-InRange ss 1 k n numbers (omega arith) (omega arith)) h (rw q at e)
    | inl q ↦
        let z : n ≡ 0 = (==_iff n 0).0 q in
        let none_there : ss ≡ [] = empty ss k numbers (omega arith) in
        rw none_there (
          subst (Wrapped (λ k. f k + 0) 1) (ok_inj (rw q at e))
            (Placed-eq _ _ 1 vs (λ k. ap (λ x. x % 2 ^ 64) (omega arith)) h))
  ]
    where
      empty : (ss : List Statistic) (k : ℕ) → ids ss ≡ range_from 1 k → k ≡ 0 → ss ≡ []
      empty [] k e z = refl
      empty (s ∷ ss) zero e z = cc
      empty (s ∷ ss) (suc k) e z = absurd (omega arith)

  merge_threads-Wrapped :
      (r : Bool) (f : ℕ → ℕ) (n : ℕ) (rs : List ThreadResult) (final st : Statistic)
      (vs ws : List Statistic)
      → n < 2 ^ 64
      → Numbered r n rs
      → Wrapped f 1 vs
      → merge_threads fl n final vs rs ≡ ok (st, ws)
      → Wrapped (λ k. f k + amount_in_interval k rs) 1 ws
  unfolding merge_threads
  merge_threads-Wrapped r f n [] final st vs ws few nums h e =
      subst (λ (x : Statistic × List Statistic). Wrapped (λ k. f k + 0) 1 x.1) (ok_inj e)
        (Placed-eq _ _ 1 vs (λ k. ap (λ x. x % 2 ^ 64) (omega arith)) h)
  merge_threads-Wrapped r f n (err x ∷ rs) final st vs ws few nums h e =
      merge_threads-Wrapped r f n rs final st vs ws few nums h e
  merge_threads-Wrapped r f n (fault x ∷ rs) final st vs ws few nums h e =
      merge_threads-Wrapped r f n rs final st vs ws few nums h e
  merge_threads-Wrapped r f n (ok (s, ss) ∷ rs) final st vs ws few ((k, i, l), _, _, nums) h e =
      let (t, a, b) = bind_ok (add fl final s) _ (st, ws) e in
      let (us, c, d) =
        bind_ok (if not (n == 0) then merge_intervals fl vs ss else ok vs) _ (st, ws) b in
      Placed-eq _ _ 1 ws (λ k. ap (λ x. x % 2 ^ 64) (omega arith))
        (merge_threads-Wrapped r (λ k. f k + amount_numbered k ss) n rs t st us ws few nums
          (merged-Wrapped f n k ss vs us few i l h c) d)

amount_numbered-kept : (k : ℕ) (ss : List Statistic) → amount_numbered k ss ≤ kept ss
amount_numbered-kept k [] = omega arith
amount_numbered-kept k (s ∷ ss) = elim (Bool-cases (s.interval_id == k)) [
  | inl e ↦ rw e (omega (arith, amount_numbered-kept k ss))
  | inr e ↦ rw e (omega (arith, amount_numbered-kept k ss))
]

amount_in_interval-reported :
    (k : ℕ) (rs : List ThreadResult) → amount_in_interval k rs ≤ reported_in_intervals rs
amount_in_interval-reported k [] = omega arith
amount_in_interval-reported k (err e ∷ rs) = amount_in_interval-reported k rs
amount_in_interval-reported k (fault x ∷ rs) = amount_in_interval-reported k rs
amount_in_interval-reported k (ok (s, ss) ∷ rs) =
    omega (arith, amount_in_interval-reported k rs, amount_numbered-kept k ss)

-- The intervals of the executor before the threads are joined.
empty-Wrapped :
    (p : Parameter) (now : F64) (j k : ℕ)
    → Wrapped
        (λ k. 0)
        j
        (map (λ i. record (Statistic.new p now) { interval_id = i }) (range_from j k))
unfolding Statistic.new
empty-Wrapped p now j zero = tt
empty-Wrapped p now j (suc k) = (refl, refl, empty-Wrapped p now (suc j) k)

-- The place of each interval is that of its number.
pub merge_threads-Placed :
    (fl : Floats) (r : Bool) (p : Parameter) (now : F64) (n : ℕ) (rs : List ThreadResult)
    (final st : Statistic) (ws : List Statistic)
    → n < 2 ^ 64
    → Numbered r n rs
    → reported_in_intervals rs < 2 ^ 64
    → merge_threads fl n final (empty_intervals fl p now n) rs ≡ ok (st, ws)
    → Placed (λ k. amount_in_interval k rs) 1 ws
unfolding empty_intervals
merge_threads-Placed fl r p now n rs final st ws few nums small e =
    Placed-eq _ _ 1 ws (λ k. omega (arith, amount_in_interval-reported k rs, small))
      (merge_threads-Wrapped fl r (λ k. 0) n rs final st _ ws few nums (empty-Wrapped p now 1 n) e)
