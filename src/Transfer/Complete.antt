-- ===== src/Transfer/Complete.antt =====
-- A whole transfer: the loop of `Sender::run` of src/node/sender.rs, and the calls of recv_messages of
-- src/node/receiver.rs, with a network between them.
use mathlib.Core.List.{Perm, append-nil}
use nperf.Base.{
  ℕ, ◌+◌, ◌*◌, ◌^◌, ◌≤◌, ◌<◌, ◌≡◌, ap, sym, subst, ◌∙◌, List, [], ◌++◌, map, length, length-map,
  length-perm, length-range_from, get_elem?, arith, some, ok,
}
use nperf.Config.{max_test_id, mmsg, IoModel}
use nperf.Config.Floats.{F64, Floats}
use nperf.Net.Header.{measurement}
use nperf.Statistic.{Measurement}
use nperf.Packets.Accounting.{limit, IsFresh}
use nperf.Node.Receiver.{Receiver, Reception}
use nperf.Node.Sender.{Sender}
use nperf.Node.Sender.Run.{Round, send_loop}
use nperf.Node.Sender.Run.Accounts.{Kernels}
use nperf.Node.Sender.Run.Passes.{IsSending}
use nperf.Transfer.Wire.{on_wire, on_wire-InOrder, EndsAt}
use nperf.Transfer.Ordered.{InOrder}
use nperf.Transfer.Datagrams.{datagrams_on, id_of, InOrder-range}
use nperf.Transfer.Shuffled.{All-perm, All-left}
use nperf.Transfer.Arriving.{Speaks, receive_all, arrived, AllDeliver}
use nperf.Transfer.Calls.{receive_all-IsCounting}
use nperf.Transfer.Spoken.{InOrder-Speaks, Speaks-prop}
use nperf.Transfer.Results.{
  HasCounted, HasAll, HasCounted-HasAll, arrived-AreOnWire, IsCounting-HasCounted,
  begins-IsCounting,
}

module _ (fl : Floats) (t count per size : ℕ) where
  -- A sender with mmsg is ready at id 0, with filled buffers of datagrams of at least 24 bytes for a
  -- test below max_test_id, and runs its loop over passes with fewer than 2^64 ids in all, on a
  -- kernel that keeps the headers and takes at most the messages it is given, and in all at most
  -- 2^62 datagrams. Each of these arrives at most once, in any order and grouping, and the others
  -- are lost. The receiver, with mmsg too, knows the test and has counted nothing, and takes what
  -- arrives by calls of recv_messages, each with at least one message, all of whole datagrams, where
  -- the first is not longer than its buffer. Then every call succeeds, the measurement of the test
  -- has the number of the datagrams that arrived, the next id of the receiver is one more than the
  -- greatest that arrived (0 for none) and at most their number on the wire, the ids below it that
  -- did not arrive are counted as omitted, none is counted as a duplicate, and the next id of the
  -- sender is the number of datagrams that the kernel accepted, unless an error ended its loop.
  pub transfer_counts :
      (m : IoModel) (start : ℕ) (rs : List Round) (s : Sender) (ks : List (Reception × F64))
      (r : Receiver) (told : Measurement) (lost : List (List ℕ))
      → 24 ≤ size
      → t < max_test_id
      → IsSending fl measurement t count mmsg per size 0 s
      → length rs * (count * per) < 2 ^ 64
      → Kernels count mmsg rs
      → get_elem? r.measurements t ≡ some told
      → IsFresh told.statistic
      → told.statistic.amount_datagrams ≡ 0
      → r.next_packet_id ≡ 0
      → r.exchange_function ≡ mmsg
      → AllDeliver fl size ks r
      → length (on_wire fl m start rs s) * per ≤ limit
      → Perm (datagrams_on per size (on_wire fl m start rs s)) (arrived fl size ks r ++ lost)
      → let amount = length (on_wire fl m start rs s) * per in
        EndsAt fl measurement t count per size amount (send_loop fl m start rs s)
        × ((receive_all fl ks r).0 ≡ ok tt)
        × HasCounted t amount (map id_of (arrived fl size ks r)) (receive_all fl ks r).1
  transfer_counts m start rs s ks r told lost big small sending few kernels known fresh none_yet
        begins function delivers n p =
      let wire = on_wire fl m start rs s in
      let ds = arrived fl size ks r in
      let z : s.next_packet_id ≡ 0 = omega (arith, sending.ids) in
      let e : s.next_packet_id + length wire * per ≡ length wire * per =
        omega (arith, sending.ids) in
      let (ordered, end) =
        on_wire-InOrder fl measurement t count per size m start 0 rs s sending (omega arith)
          kernels in
      let o = subst (λ id. InOrder per size measurement t id wire) z ordered in
      let all = arrived-AreOnWire per size t wire ds lost big o p in
      let spoken =
        All-left (Speaks t) ds lost
          (All-perm (Speaks t) (Speaks-prop t) p (InOrder-Speaks per size t big 0 wire o)) in
      let (done, c) =
        receive_all-IsCounting fl size t told.statistic big small ks r []
          (begins-IsCounting t told r known none_yet begins function) delivers spoken
          (omega (arith, all.few, length-map id_of ds)) in
      (
        subst (λ id. EndsAt fl measurement t count per size id (send_loop fl m start rs s)) e end,
        done,
        IsCounting-HasCounted t (length wire * per) told (map id_of ds) _ n all fresh c,
      )

  -- A sender with mmsg is ready at id 0, with filled buffers of datagrams of at least 24 bytes for a
  -- test below max_test_id, and runs its loop over passes with fewer than 2^64 ids in all, on a
  -- kernel that keeps the headers and takes at most the messages it is given, and in all at most
  -- 2^62 datagrams. Each of these arrives once, in any order and grouping. The receiver, with mmsg
  -- too, knows the test and has counted nothing, and takes what arrives by calls of recv_messages,
  -- each with at least one message, all of whole datagrams, where the first is not longer than its
  -- buffer. Then every call succeeds, the measurement of the test has exactly the number of
  -- datagrams that the kernel accepted, which is also the next id of the receiver, none is counted
  -- as omitted or as a duplicate, and the next id of the sender is the number of datagrams that the
  -- kernel accepted, unless an error ended its loop.
  pub transfer_complete :
      (m : IoModel) (start : ℕ) (rs : List Round) (s : Sender) (ks : List (Reception × F64))
      (r : Receiver) (told : Measurement)
      → 24 ≤ size
      → t < max_test_id
      → IsSending fl measurement t count mmsg per size 0 s
      → length rs * (count * per) < 2 ^ 64
      → Kernels count mmsg rs
      → get_elem? r.measurements t ≡ some told
      → IsFresh told.statistic
      → told.statistic.amount_datagrams ≡ 0
      → r.next_packet_id ≡ 0
      → r.exchange_function ≡ mmsg
      → AllDeliver fl size ks r
      → length (on_wire fl m start rs s) * per ≤ limit
      → Perm (datagrams_on per size (on_wire fl m start rs s)) (arrived fl size ks r)
      → let amount = length (on_wire fl m start rs s) * per in
        EndsAt fl measurement t count per size amount (send_loop fl m start rs s)
        × ((receive_all fl ks r).0 ≡ ok tt)
        × HasAll t amount (receive_all fl ks r).1
  transfer_complete m start rs s ks r told big small sending few kernels known fresh none_yet begins
        function delivers n p =
      let wire = on_wire fl m start rs s in
      let ds = arrived fl size ks r in
      let (end, done, counted) =
        transfer_counts m start rs s ks r told [] big small sending few kernels known fresh none_yet
          begins function delivers n (rw (append-nil ds) p) in
      let (ordered, _) =
        on_wire-InOrder fl measurement t count per size m start 0 rs s sending (omega arith)
          kernels in
      let all =
        ap length (InOrder-range per size measurement t big s.next_packet_id wire ordered) in
      let many : length (map id_of ds) ≡ length wire * per =
        length-map id_of ds
        ∙ sym (length-perm p)
        ∙ sym (length-map id_of (datagrams_on per size wire))
        ∙ all
        ∙ length-range_from s.next_packet_id (length wire * per) in
      (end, done, HasCounted-HasAll t (length wire * per) (map id_of ds) _ many counted)
