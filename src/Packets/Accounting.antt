-- ===== src/Packets/Accounting.antt =====
-- The sums of the packet accounting: what `process_packet_number` does to the counters, over any
-- sequence of packet ids.
use nperf.Base.{
  ℕ, suc, ◌+◌, ◌^◌, ◌≤◌, ◌<◌, ◌≡◌, refl, List, [], ◌∷◌, arith, length, add64, max, ◌∙◌, ap,
}
use nperf.Statistic.{Statistic}
use nperf.Packets.{process_packet_number}

-- The loop of `process_packet_msghdr` over the ids that the datagrams carry.
unfoldable pub receive_numbers : List ℕ → ℕ → Statistic → ℕ × Statistic
receive_numbers [] next s = (next, s)
receive_numbers (id ∷ ids) next s =
    let r = process_packet_number id next s in receive_numbers ids (add64 next r.0) r.1

-- Ids and counters far from the end of their range.
abbrev pub limit : ℕ
limit = 2 ^ 62

abbrev pub AllBelow : ℕ → List ℕ → Type 0
AllBelow n [] = Unit {0}
AllBelow n (x ∷ xs) = (x < n) × AllBelow n xs

-- After `seen` packets: what is missing or came makes up the expected id and the duplicates, and
-- the numbers are small.
pub record IsBalanced (seen next : ℕ) (s : Statistic) : Type 0 where
  pub balance : s.amount_omitted_datagrams + seen ≡ next + s.amount_duplicated_datagrams
  pub next_small : next ≤ limit
  pub seen_small : seen ≤ limit
  pub counted : s.amount_reordered_datagrams + s.amount_duplicated_datagrams ≤ seen

process_packet_number-IsBalanced :
    (id seen next : ℕ) (s : Statistic)
    → id < limit
    → seen < limit
    → IsBalanced seen next s
    → let r = process_packet_number id next s in
      IsBalanced (suc seen) (add64 next r.0) r.1 × (add64 next r.0 ≡ max next (suc id))
unfolding process_packet_number
process_packet_number-IsBalanced id seen next s h l b = ground arith

-- The id that is expected once `ids` are in: one more than the greatest.
abbrev pub expected : ℕ → List ℕ → ℕ
expected next [] = next
expected next (id ∷ ids) = expected (max next (suc id)) ids

receive_numbers-IsBalanced :
    (ids : List ℕ) (seen next : ℕ) (s : Statistic)
    → AllBelow limit ids
    → seen + length ids ≤ limit
    → IsBalanced seen next s
    → let r = receive_numbers ids next s in
      IsBalanced (seen + length ids) r.0 r.1 × (r.0 ≡ expected next ids)
unfolding receive_numbers
receive_numbers-IsBalanced [] seen next s h l b =
    let z : seen + 0 ≡ seen = omega arith in (rw z b, refl)
receive_numbers-IsBalanced (id ∷ ids) seen next s h l b =
    let (b', e) = process_packet_number-IsBalanced id seen next s h.0 (omega arith) b in
    let (c, f) = receive_numbers-IsBalanced ids (suc seen) _ _ h.1 (omega arith) b' in
    let z : seen + suc (length ids) ≡ suc seen + length ids = omega arith in
    (rw z c, f ∙ ap (λ x. expected x ids) e)

-- A statistic in which no packet has been counted.
pub record IsFresh (s : Statistic) : Type 0 where
  pub omitted : s.amount_omitted_datagrams ≡ 0
  pub reordered : s.amount_reordered_datagrams ≡ 0
  pub duplicated : s.amount_duplicated_datagrams ≡ 0

fresh-IsBalanced : (s : Statistic) → IsFresh s → IsBalanced 0 0 s
fresh-IsBalanced s f = omega arith

-- From a fresh statistic, over any sequence of less than 2^62 ids below 2^62: the omitted and the
-- received packets are as many as the ids expected so far and the duplicates, the next id is one
-- more than the greatest received, and no packet is counted as both reordered and duplicated.
pub receive_numbers_balance :
    (ids : List ℕ) (s : Statistic)
    → AllBelow limit ids
    → length ids ≤ limit
    → IsFresh s
    → let r = receive_numbers ids 0 s in
      (r.1.amount_omitted_datagrams + length ids ≡ r.0 + r.1.amount_duplicated_datagrams)
      × (r.0 ≡ expected 0 ids)
      × (r.1.amount_reordered_datagrams + r.1.amount_duplicated_datagrams ≤ length ids)
receive_numbers_balance ids s h l f =
    let (b, e) = receive_numbers-IsBalanced ids 0 0 s h (omega arith) (fresh-IsBalanced s f) in
    (omega (arith, b.balance), e, omega (arith, b.counted))
