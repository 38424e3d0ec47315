-- ===== src/Transfer/Calls.antt =====
-- What a sequence of calls of recv_messages of src/node/receiver.rs counts: the ids of all datagrams, one after the
-- other.
use mathlib.Core.List.{map-append, append-nil, append_assoc}
use nperf.Base.{
  ◌&&◌, ◌==◌, Outcome, Bool-cases, inl, inr, ℕ, suc, ◌+◌, ◌^◌, ◌≤◌, ◌<◌, ◌≡◌, refl, ap, sym, subst,
  ◌∙◌, List, [], ◌∷◌, ◌++◌, map, length, length-append, length-map, length-set, get_elem?-set_self,
  set, add64, arith, ok,
}
use nperf.Config.{max_test_id, ExchangeFunction, normal, msg, mmsg}
use nperf.Config.Floats.{F64, Floats}
use nperf.Net.Socket
use nperf.Net.Socket.{returned}
use nperf.Statistic.{Statistic}
use nperf.Buffer.Msghdr.{buffer_of}
use nperf.Buffer.PacketBuffer.{Mmsghdr, get_buffer_pointer_from_index}
use nperf.Packets.{process_packet_number}
use nperf.Packets.Accounting.{receive_numbers}
use nperf.Node.Receiver.{Receiver, Reception, received}
use nperf.Node.Receiver.Measurements.{first_packet}
use nperf.Node.Receiver.Recv.{recv_messages, recv, recvmsg, recvmmsg, take_message, count_msghdrs}
use nperf.Transfer.Datagrams.{id_of}
use nperf.Transfer.Counting.{IsWhole, datagrams_in, datagrams_among, receive_numbers-append}
use nperf.Transfer.Shuffled.{All, All-left, All-right}
use nperf.Transfer.Arriving.{
  Agrees, receive_numbers-Agrees, Speaks, amount_of, messages, prepared, Delivers, receive_all,
  arrived, AllDeliver, IsCounting, read_first, get_elem?-below, first_packet-counters,
  take_message-known, count_msghdrs-AllWhole,
}

process_packet_number-amount :
    (id next : ℕ) (s : Statistic)
    → (process_packet_number id next s).1.amount_datagrams ≡ s.amount_datagrams
unfolding process_packet_number
process_packet_number-amount id next s = ground arith

receive_numbers-amount :
    (ids : List ℕ) (next : ℕ) (s : Statistic)
    → (receive_numbers ids next s).1.amount_datagrams ≡ s.amount_datagrams
unfolding receive_numbers
receive_numbers-amount [] next s = refl
receive_numbers-amount (id ∷ ids) next s =
    receive_numbers-amount ids _ _ ∙ process_packet_number-amount id next s

Agrees-trans : (s x y : Statistic) → Agrees s x → Agrees x y → Agrees s y
Agrees-trans s x y a b = record {
  omitted = b.omitted ∙ a.omitted;
  reordered = b.reordered ∙ a.reordered;
  duplicated = b.duplicated ∙ a.duplicated;
}

first_buffer :
    (k : Reception) (r : Receiver) (m : Mmsghdr) (ms : List Mmsghdr)
    → messages k r ≡ m ∷ ms
    → get_buffer_pointer_from_index (received k r).packet_buffer 0 ≡ ok (buffer_of m.msg_hdr)
unfolding get_buffer_pointer_from_index
first_buffer k r m ms e = rw e refl

prepared-IsCounting :
    (t : ℕ) (s : Statistic) (ids : List ℕ) (r : Receiver)
    → IsCounting t s ids r
    → IsCounting t s ids (prepared r)
prepared-IsCounting t s ids r c =
    elim (Bool-cases (r.parameter.socket_options.gro && r.next_packet_id == 0)) [
      | inl e ↦ rw e (record {
        current = c.current;
        known = c.known;
        next = c.next;
        function = c.function;
        agrees = c.agrees;
        amount = c.amount;
      })
      | inr e ↦ rw e c
    ]

recv_messages_mmsg :
    (fl : Floats) (k : Reception) (now : F64) (r : Receiver)
    → r.exchange_function ≡ mmsg
    → recv_messages fl k now r ≡ recvmmsg fl k now (prepared r)
unfolding recv_messages
recv_messages_mmsg fl k now r e =
    ap
      (λ (f : ExchangeFunction).
        let q : Outcome (Unit {0}) × Receiver = elim f [
          | normal ↦ recv fl k now (prepared r)
          | msg ↦ recvmsg fl k now (prepared r)
          | mmsg ↦ recvmmsg fl k now (prepared r)
        ] in
        q)
      e

module _ (fl : Floats) where
  recvmmsg_taken :
      (k : Reception) (now : F64) (r x : Receiver) (n : ℕ) (m : Mmsghdr) (ms : List Mmsghdr)
      → k.answer ≡ returned (suc n)
      → messages k r ≡ m ∷ ms
      → take_message fl (ok (buffer_of m.msg_hdr)) (count_msghdrs fl (suc n)) now (received k r)
        ≡ (ok tt, x)
      → recvmmsg fl k now r ≡ (ok tt, x)
  unfolding recvmmsg Socket.recvmmsg
  recvmmsg_taken k now r x n m ms a e t = rw (recvmmsg, a, first_buffer k r m ms e) t

  module _ (t : ℕ) (s : Statistic) where
    -- After a call: the counts of the measurement, from those of the ids.
    IsCounting-more :
        (ids new : List ℕ) (r x : Receiver) (now : F64) (bytes : ℕ) (c : IsCounting t s ids r)
        → length ids + length new < 2 ^ 64
        → let f = first_packet now c.current in
          let q = receive_numbers new r.next_packet_id f.statistic in
          x.next_packet_id ≡ q.0
          → x.exchange_function ≡ r.exchange_function
          → x.measurements
            ≡ set (set r.measurements t f) t (record f {
              statistic = record q.1 {
                amount_datagrams = add64 q.1.amount_datagrams (length new);
                amount_data_bytes = add64 q.1.amount_data_bytes bytes;
              };
            })
          → IsCounting t s (ids ++ new) x
    IsCounting-more ids new r x now bytes c few next same_function stored =
        let f = first_packet now c.current in
        let q = receive_numbers new r.next_packet_id f.statistic in
        let before = receive_numbers ids 0 s in
        let (a, same) = first_packet-counters now c.current in
        let (n, b) =
          receive_numbers-Agrees new before.0 before.1 f.statistic
            (Agrees-trans _ _ _ c.agrees a) in
        let there : t < length (set r.measurements t f) = omega (
          arith,
          get_elem?-below t r.measurements c.current c.known,
          length-set r.measurements t f,
        ) in
        let n' : q.0 ≡ (receive_numbers new before.0 before.1).0 =
          ap (λ i. (receive_numbers new i f.statistic).0) c.next ∙ n in
        let b' : Agrees (receive_numbers new before.0 before.1).1 q.1 = rw (c.next) b in
        let amount = receive_numbers-amount new r.next_packet_id f.statistic in
        record {
          current = record f {
            statistic = record q.1 {
              amount_datagrams = add64 q.1.amount_datagrams (length new);
              amount_data_bytes = add64 q.1.amount_data_bytes bytes;
            };
          };
          known = rw stored (get_elem?-set_self (set r.measurements t f) t _ there);
          next = rw (receive_numbers-append ids new 0 s) (next ∙ n');
          function = same_function ∙ c.function;
          agrees = rw (receive_numbers-append ids new 0 s) (record {
            omitted = b'.omitted;
            reordered = b'.reordered;
            duplicated = b'.duplicated;
          });
          amount = omega (arith, amount, same, c.amount, length-append ids new);
        }

  module _ (size t : ℕ) (s : Statistic) (big : 24 ≤ size) (small : t < max_test_id) where
    -- A call that brings datagrams of the test succeeds, and counts their ids.
    recvmmsg-IsCounting :
        (k : Reception) (now : F64) (r : Receiver) (ids : List ℕ)
        → IsCounting t s ids r
        → (d : Delivers size k r)
        → let new = datagrams_among size (suc d.others) (messages k r) in
          All (Speaks t) new
          → length ids + length new < 2 ^ 64
          → ((recvmmsg fl k now r).0 ≡ ok tt)
            × IsCounting t s (ids ++ map id_of new) (recvmmsg fl k now r).1
    recvmmsg-IsCounting k now r ids c d spoken few =
        let new = datagrams_among size (suc d.others) (messages k r) in
        let f = first_packet now c.current in
        let r' : Receiver = record (received k r) { measurements = set r.measurements t f } in
        let w : IsWhole size d.first = (rw (d.there) at d.whole).0 in
        let said : All (Speaks t) (datagrams_in size d.first) =
          All-left (Speaks t) (datagrams_in size d.first) _ (rw (d.there) at spoken) in
        let (ms, bytes, counted) =
          count_msghdrs-AllWhole fl size (suc d.others) t f r' big d.whole (omega arith) in
        let header = read_first t size d.first big w d.room said in
        let taken =
          take_message-known fl (buffer_of d.first.msg_hdr) (count_msghdrs fl (suc d.others)) now
            (received k r) _ t c.current small header c.known counted in
        let e = recvmmsg_taken k now r _ d.others d.first d.next d.answered d.there taken in
        rw e (
          refl,
          IsCounting-more t s ids (map id_of new) r _ now bytes c
              (omega (arith, length-map id_of new)) refl refl refl,
        )

    recvmmsg-amount_of :
        (k : Reception) (now : F64) (r : Receiver) (ids : List ℕ)
        → IsCounting t s ids r
        → Delivers size k r
        → let new = datagrams_among size (amount_of k.answer) (messages k r) in
          All (Speaks t) new
          → length ids + length new < 2 ^ 64
          → ((recvmmsg fl k now r).0 ≡ ok tt)
            × IsCounting t s (ids ++ map id_of new) (recvmmsg fl k now r).1
    recvmmsg-amount_of k now r ids c d =
        subst
          (λ n.
            let new = datagrams_among size n (messages k r) in
            All (Speaks t) new
            → length ids + length new < 2 ^ 64
            → ((recvmmsg fl k now r).0 ≡ ok tt)
              × IsCounting t s (ids ++ map id_of new) (recvmmsg fl k now r).1)
          (sym (ap amount_of d.answered)) (recvmmsg-IsCounting k now r ids c d)

    recv_messages-IsCounting :
        (k : Reception) (now : F64) (r : Receiver) (ids : List ℕ)
        → IsCounting t s ids r
        → Delivers size k (prepared r)
        → let new = datagrams_among size (amount_of k.answer) (messages k (prepared r)) in
          All (Speaks t) new
          → length ids + length new < 2 ^ 64
          → ((recv_messages fl k now r).0 ≡ ok tt)
            × IsCounting t s (ids ++ map id_of new) (recv_messages fl k now r).1
    recv_messages-IsCounting k now r ids c d spoken few =
        let h =
          recvmmsg-amount_of k now (prepared r) ids (prepared-IsCounting t s ids r c) d spoken
            few in
        rw (recv_messages_mmsg fl k now r c.function) h

    -- Calls that bring datagrams of the test succeed, and count the ids of all.
    pub receive_all-IsCounting :
        (ks : List (Reception × F64)) (r : Receiver) (ids : List ℕ)
        → IsCounting t s ids r
        → AllDeliver fl size ks r
        → All (Speaks t) (arrived fl size ks r)
        → length ids + length (arrived fl size ks r) < 2 ^ 64
        → ((receive_all fl ks r).0 ≡ ok tt)
          × IsCounting t s (ids ++ map id_of (arrived fl size ks r)) (receive_all fl ks r).1
    unfolding receive_all
    receive_all-IsCounting [] r ids c d spoken few = (refl, rw (append-nil ids) c)
    receive_all-IsCounting ((k, now) ∷ ks) r ids c d spoken few =
        let new = datagrams_among size (amount_of k.answer) (messages k (prepared r)) in
        let r' = (recv_messages fl k now r).1 in
        let later = arrived fl size ks r' in
        let total = length-append new later in
        let (e, c') =
          recv_messages-IsCounting k now r ids c d.0 (All-left (Speaks t) new later spoken)
            (omega arith) in
        let counted = length-append ids (map id_of new) in
        let (e', c'') =
          receive_all-IsCounting ks r' (ids ++ map id_of new) c' d.1
            (All-right (Speaks t) new later spoken) (omega (arith, length-map id_of new)) in
        rw (receive_all, e, map-append id_of new later)
          (e', rw (append_assoc ids (map id_of new) (map id_of later)) at c'')
