-- ===== src/Packets/Distinct.antt =====
-- Packets that all differ: the receiver misses exactly those that did not come, in whatever order
-- the others arrive.
use nperf.Base.{
  ℕ, zero, suc, ◌+◌, ◌≤◌, ◌<◌, ◌≡◌, ◌≢◌, refl, List, [], ◌∷◌, arith, length, add64, max, sym,
}
use native.Mathlib.Decide.{ℕ_discrete}
use nperf.Statistic.{Statistic}
use nperf.Packets.{process_packet_number}
use nperf.Packets.Accounting.{
  receive_numbers, limit, AllBelow, IsFresh, expected, receive_numbers_balance,
}

abbrev pub NotIn : ℕ → List ℕ → Type 0
NotIn x [] = Unit {0}
NotIn x (y ∷ ys) = (x ≢ y) × NotIn x ys

abbrev pub Distinct : List ℕ → Type 0
Distinct [] = Unit {0}
Distinct (x ∷ xs) = NotIn x xs × Distinct xs

-- The list without the entries that are `n`.
without : ℕ → List ℕ → List ℕ
without n [] = []
without n (x ∷ xs) = elim (ℕ_discrete x n) [ yes e ↦ without n xs | no ne ↦ x ∷ without n xs ]

without_absent : (n : ℕ) (xs : List ℕ) → NotIn n xs → length (without n xs) ≡ length xs
unfolding without
without_absent n [] h = refl
without_absent n (x ∷ xs) h = ground (arith, without_absent n xs h.1)

length-without : (n : ℕ) (xs : List ℕ) → Distinct xs → length xs ≤ suc (length (without n xs))
unfolding without
length-without n [] h = omega arith
length-without n (x ∷ xs) h = ground (arith, length-without n xs h.1, without_absent x xs h.0)

without-NotIn : (n y : ℕ) (xs : List ℕ) → NotIn y xs → NotIn y (without n xs)
unfolding without
without-NotIn n y [] h = tt
without-NotIn n y (x ∷ xs) h = ground (arith, without-NotIn n y xs h.1)

without-Distinct : (n : ℕ) (xs : List ℕ) → Distinct xs → Distinct (without n xs)
unfolding without
without-Distinct n [] h = tt
without-Distinct n (x ∷ xs) h = ground (arith, without-Distinct n xs h.1, without-NotIn n x xs h.0)

without-AllBelow : (n : ℕ) (xs : List ℕ) → AllBelow (suc n) xs → AllBelow n (without n xs)
unfolding without
without-AllBelow n [] h = tt
without-AllBelow n (x ∷ xs) h = ground (arith, without-AllBelow n xs h.1)

-- At most n different numbers are below n.
pub length-Distinct : (n : ℕ) (xs : List ℕ) → Distinct xs → AllBelow n xs → length xs ≤ n
length-Distinct zero [] d h = omega arith
length-Distinct zero (x ∷ xs) d h = absurd (omega arith)
length-Distinct (suc n) xs d h = omega (
  arith,
  length-without n xs d,
  length-Distinct n (without n xs) (without-Distinct n xs d) (without-AllBelow n xs h),
)

AllBelow-mono : (m n : ℕ) (xs : List ℕ) → m ≤ n → AllBelow m xs → AllBelow n xs
AllBelow-mono m n [] l h = tt
AllBelow-mono m n (x ∷ xs) l h = (omega arith, AllBelow-mono m n xs l h.1)

-- While the packets seen so far all differ, `omitted` counts the ids below the expected one that
-- are not among them.
record IsTracking (seen : List ℕ) (next : ℕ) (s : Statistic) : Type 0 where
  distinct : Distinct seen
  below : AllBelow next seen
  missing : s.amount_omitted_datagrams + length seen ≡ next
  no_duplicate : s.amount_duplicated_datagrams ≡ 0
  next_small : next ≤ limit

process_packet_number_counts :
    (id next seen : ℕ) (s : Statistic)
    → id < limit
    → next ≤ limit
    → s.amount_omitted_datagrams + seen ≡ next
    → s.amount_duplicated_datagrams ≡ 0
    → (id < next → seen < next)
    → let r = process_packet_number id next s in
      (add64 next r.0 ≡ max next (suc id))
      × (r.1.amount_omitted_datagrams + suc seen ≡ max next (suc id))
      × (r.1.amount_duplicated_datagrams ≡ 0)
unfolding process_packet_number
process_packet_number_counts id next seen s h l m z room = ground arith

process_packet_number-IsTracking :
    (id : ℕ) (seen : List ℕ) (next : ℕ) (s : Statistic)
    → id < limit
    → NotIn id seen
    → IsTracking seen next s
    → let r = process_packet_number id next s in IsTracking (id ∷ seen) (add64 next r.0) r.1
process_packet_number-IsTracking id seen next s h new t =
    let (e, m, z) =
      process_packet_number_counts id next (length seen) s h t.next_small t.missing t.no_duplicate
        (λ l. length-Distinct next (id ∷ seen) (new, t.distinct) (l, t.below)) in
    record {
      distinct = (new, t.distinct);
      below = (omega arith, AllBelow-mono next _ seen (omega arith) t.below);
      missing = omega arith;
      no_duplicate = z;
      next_small = omega (arith, t.next_small);
    }

-- No entry of the first list is in the second.
abbrev Apart : List ℕ → List ℕ → Type 0
Apart [] seen = Unit {0}
Apart (x ∷ xs) seen = NotIn x seen × Apart xs seen

Apart-cons : (x : ℕ) (xs seen : List ℕ) → NotIn x xs → Apart xs seen → Apart xs (x ∷ seen)
Apart-cons x [] seen n a = tt
Apart-cons x (y ∷ ys) seen n a = ((λ e. n.0 (sym e), a.0), Apart-cons x ys seen n.1 a.1)

Apart-nil : (xs : List ℕ) → Apart xs []
Apart-nil [] = tt
Apart-nil (x ∷ xs) = (tt, Apart-nil xs)

receive_numbers-IsTracking :
    (ids seen : List ℕ) (next : ℕ) (s : Statistic)
    → AllBelow limit ids
    → Distinct ids
    → Apart ids seen
    → IsTracking seen next s
    → let r = receive_numbers ids next s in
      (r.1.amount_omitted_datagrams + (length seen + length ids) ≡ r.0)
      × (r.1.amount_duplicated_datagrams ≡ 0)
unfolding receive_numbers
receive_numbers-IsTracking [] seen next s h d a t = (omega (arith, t.missing), t.no_duplicate)
receive_numbers-IsTracking (id ∷ ids) seen next s h d a t =
    let (m, z) =
      receive_numbers-IsTracking ids (id ∷ seen) _ _ h.1 d.1 (Apart-cons id ids seen d.0 a.1)
        (process_packet_number-IsTracking id seen next s h.0 a.0 t) in
    (omega arith, z)

-- If the received ids all differ and are below 2^62, then from a fresh statistic no packet is
-- counted as a duplicate, and `omitted` is the number of the ids up to the greatest received that
-- did not come.
receive_numbers-Distinct :
    (ids : List ℕ) (s : Statistic)
    → AllBelow limit ids
    → Distinct ids
    → IsFresh s
    → let r = receive_numbers ids 0 s in
      (r.1.amount_omitted_datagrams + length ids ≡ expected 0 ids)
      × (r.1.amount_duplicated_datagrams ≡ 0)
receive_numbers-Distinct ids s h d f =
    let (m, z) = receive_numbers-IsTracking ids [] 0 s h d (Apart-nil ids) (record {
      distinct = tt;
      below = tt;
      missing = omega (arith, f.omitted);
      no_duplicate = f.duplicated;
      next_small = omega arith;
    }) in
    let (_, e, _) = receive_numbers_balance ids s h (length-Distinct limit ids d h) f in
    (omega arith, z)

expected-le : (n next : ℕ) (ids : List ℕ) → AllBelow n ids → next ≤ n → expected next ids ≤ n
expected-le n next [] h l = l
expected-le n next (id ∷ ids) h l = expected-le n (max next (suc id)) ids h.1 (omega arith)

-- If the received ids all differ and are below n, then from a fresh statistic the ones below the next expected id
-- that did not come are counted as omitted, and none as a duplicate.
pub receive_numbers_among :
    (n : ℕ) (ids : List ℕ) (s : Statistic)
    → n ≤ limit
    → AllBelow n ids
    → Distinct ids
    → IsFresh s
    → let r = receive_numbers ids 0 s in
      (r.0 ≡ expected 0 ids)
      × (r.0 ≤ n)
      × (r.1.amount_omitted_datagrams + length ids ≡ r.0)
      × (r.1.amount_duplicated_datagrams ≡ 0)
receive_numbers_among n ids s small h d f =
    let below = AllBelow-mono n limit ids small h in
    let (m, z) = receive_numbers-Distinct ids s below d f in
    let (_, e, _) = receive_numbers_balance ids s below (length-Distinct limit ids d below) f in
    let top = expected-le n 0 ids h (omega arith) in (e, omega arith, omega arith, z)
