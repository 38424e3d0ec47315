-- ===== src/Transfer/Results.antt =====
-- What a receiver of src/node/receiver.rs has at the end of a test, from the ids that came.
use mathlib.Core.List.{Perm, map-append}
use nperf.Base.{
  ℕ, ◌+◌, ◌*◌, ◌≤◌, ◌≡◌, refl, ◌∙◌, List, [], ◌++◌, length-append, map, length, length-perm,
  length-range_from, get_elem?, arith, some,
}
use nperf.Config.{mmsg}
use nperf.Net.Header.{measurement}
use nperf.Statistic.{Measurement}
use nperf.Buffer.Msghdr.{Msghdr}
use nperf.Packets.Accounting.{receive_numbers, limit, AllBelow, IsFresh, expected}
use nperf.Packets.Distinct.{Distinct, receive_numbers_among}
use nperf.Node.Receiver.{Receiver}
use nperf.Transfer.Ordered.{InOrder}
use nperf.Transfer.Datagrams.{datagrams_on, id_of, InOrder-range}
use nperf.Transfer.Shuffled.{
  map-perm, Distinct-perm, Distinct-left, AllBelow-left, AllBelow-perm, range_from-Distinct,
  range_from-AllBelow,
}
use nperf.Transfer.Arriving.{IsCounting}

-- What the receiver has of test `t` when `ids` came of `n` datagrams: how many came, the next id after the greatest,
-- and the ids below it that did not come as omitted.
pub record HasCounted (t n : ℕ) (ids : List ℕ) (r : Receiver) : Type 0 where
  pub current : Measurement
  pub known : get_elem? r.measurements t ≡ some current
  pub amount : current.statistic.amount_datagrams ≡ length ids
  pub next : r.next_packet_id ≡ expected 0 ids
  pub bound : r.next_packet_id ≤ n
  pub omitted : current.statistic.amount_omitted_datagrams + length ids ≡ r.next_packet_id
  pub duplicated : current.statistic.amount_duplicated_datagrams ≡ 0

-- Nothing is missing, and nothing came twice.
pub record HasAll (t n : ℕ) (r : Receiver) : Type 0 where
  pub current : Measurement
  pub known : get_elem? r.measurements t ≡ some current
  pub amount : current.statistic.amount_datagrams ≡ n
  pub next : r.next_packet_id ≡ n
  pub omitted : current.statistic.amount_omitted_datagrams ≡ 0
  pub duplicated : current.statistic.amount_duplicated_datagrams ≡ 0

pub HasCounted-HasAll :
    (t n : ℕ) (ids : List ℕ) (r : Receiver) → length ids ≡ n → HasCounted t n ids r → HasAll t n r
HasCounted-HasAll t n ids r e h = record {
  current = h.current;
  known = h.known;
  amount = h.amount ∙ e;
  next = omega (arith, h.omitted, h.bound);
  omitted = omega (arith, h.omitted, h.bound);
  duplicated = h.duplicated;
}

-- The ids of datagrams that are on the wire, each once.
pub record AreOnWire (n : ℕ) (ids : List ℕ) : Type 0 where
  pub few : length ids ≤ n
  pub below : AllBelow n ids
  pub distinct : Distinct ids

pub arrived-AreOnWire :
    (n size t : ℕ) (hs : List Msghdr) (ds lost : List (List ℕ))
    → 24 ≤ size
    → InOrder n size measurement t 0 hs
    → Perm (datagrams_on n size hs) (ds ++ lost)
    → AreOnWire (length hs * n) (map id_of ds)
arrived-AreOnWire n size t hs ds lost big o p =
    let sent = rw (InOrder-range n size measurement t big 0 hs o) at (map-perm id_of p) in
    let ids = rw (map-append id_of ds lost) at sent in
    let many = length-perm ids ∙ length-append (map id_of ds) (map id_of lost) in
    record {
      few = omega (arith, many, length-range_from 0 (length hs * n));
      below =
          AllBelow-left _ (map id_of ds) _
            (AllBelow-perm _ ids (range_from-AllBelow _ 0 (length hs * n) (omega arith)));
      distinct =
          Distinct-left (map id_of ds) _
            (Distinct-perm ids (range_from-Distinct 0 (length hs * n)));
    }

pub IsCounting-HasCounted :
    (t n : ℕ) (m : Measurement) (ids : List ℕ) (r : Receiver)
    → n ≤ limit
    → AreOnWire n ids
    → IsFresh m.statistic
    → IsCounting t m.statistic ids r
    → HasCounted t n ids r
IsCounting-HasCounted t n m ids r small all fresh c =
    let (next, bound, omitted, duplicated) =
      receive_numbers_among n ids m.statistic small all.below all.distinct fresh in
    record {
      current = c.current;
      known = c.known;
      amount = c.amount;
      next = c.next ∙ next;
      bound = omega (arith, c.next);
      omitted = omega (arith, c.next, c.agrees.omitted);
      duplicated = c.agrees.duplicated ∙ duplicated;
    }

pub begins-IsCounting :
    (t : ℕ) (told : Measurement) (r : Receiver)
    → get_elem? r.measurements t ≡ some told
    → told.statistic.amount_datagrams ≡ 0
    → r.next_packet_id ≡ 0
    → r.exchange_function ≡ mmsg
    → IsCounting t told.statistic [] r
unfolding receive_numbers
begins-IsCounting t told r known none_yet begins function = record {
  current = told;
  known = known;
  next = begins;
  function = function;
  agrees = record { omitted = refl; reordered = refl; duplicated = refl };
  amount = none_yet;
}
