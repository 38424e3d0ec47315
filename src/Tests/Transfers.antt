-- ===== src/Tests/Transfers.antt =====
-- The theorems on a transfer at concrete inputs.
use mathlib.Core.List.{Perm, Permᴰ}
use nperf.Base.{
  ◌++◌, ℕ, ◌+◌, ◌*◌, ◌<◌, ◌≡◌, map, false, refl, List, [], ◌∷◌, replicate, length, arith, ok,
}
use nperf.Config.{poll}
use nperf.Config.Floats.{F64}
use nperf.Net.Header
use nperf.Net.Header.{measurement, set_packet_id_raw, write_word}
use nperf.Net.Header.Bytes.{write_at, le_bytes}
use nperf.Net.Socket
use nperf.Net.Socket.{returned}
use nperf.Statistic
use nperf.Statistic.{Measurement}
use nperf.Buffer.PacketBuffer.{add_packet_ids, stamp_buffers, stamp_packets, stamp}
use nperf.Packets.{single_packet_size}
use nperf.Node.Sender.{send_messages, io_wait}
use nperf.Packets.Accounting.{IsFresh}
use nperf.Node.Receiver.{Receiver, Reception}
use nperf.Node.Sender.Run.{send_loop, send_round}
use nperf.Transfer.Wire.{on_wire, on_wire-InOrder, EndsAt}
use nperf.Transfer.Ordered.{InOrder}
use nperf.Transfer.Datagrams.{datagrams_on, id_of}
use nperf.Transfer.Counting.{IsWhole}
use nperf.Transfer.Arriving.{Delivers, receive_all, arrived}
use nperf.Transfer.Results.{HasAll, HasCounted}
use nperf.Transfer.Complete.{transfer_complete, transfer_counts}
use nperf.Tests.{a_receiver, fresh, memory, message-IsFilled, mmsghdr, whole}
use nperf.Tests.Runs.{runner, rounds, runner-IsSending, rounds-Kernels}

on_wire-InOrder_example :
    InOrder 1 24 measurement 7 0 (on_wire whole poll 0 rounds runner)
    × EndsAt whole measurement 7 4 1 24
        (0 + length (on_wire whole poll 0 rounds runner) * 1)
        (send_loop whole poll 0 rounds runner)
on_wire-InOrder_example =
    on_wire-InOrder whole measurement 7 4 1 24 poll 0 0 rounds runner runner-IsSending (omega arith)
      rounds-Kernels

-- The kernel brings one message.
abbrev brings : ℕ → Reception
brings id = record { answer = returned 1; wrote = λ ms. mmsghdr id ∷ [] }

-- The second message comes first.
abbrev swapped : List (Reception × F64)
swapped = (brings 1, 3) ∷ (brings 0, 4) ∷ []

abbrev untouched : Measurement
untouched = record {
  start_time = 0;
  end_time = 0;
  statistic = fresh;
  first_packet_received = false;
  last_packet_received = false;
}

abbrev waiting : Receiver
waiting = record a_receiver { next_packet_id = 0; measurements = replicate 8 untouched }

untouched-amount : untouched.statistic.amount_datagrams ≡ 0
unfolding Statistic.new
untouched-amount = refl

untouched-IsFresh : IsFresh untouched.statistic
unfolding Statistic.new
untouched-IsFresh = record { omitted = refl; reordered = refl; duplicated = refl }

mmsghdr-IsWhole : (id : ℕ) → id < 100 → IsWhole 24 (mmsghdr id)
unfolding single_packet_size
mmsghdr-IsWhole id l = record {
  one = refl;
  whole = refl;
  some_datagram = omega arith;
  inside = omega (arith, (message-IsFilled id l).inside);
  single = refl;
  small = omega arith;
}

-- Two of the four messages are accepted.
sent_two :
    (datagrams_on 1 24 (on_wire whole poll 0 rounds runner) ≡ memory 0 ∷ memory 1 ∷ [])
    × (length (on_wire whole poll 0 rounds runner) ≡ 2)
unfolding on_wire send_round send_messages add_packet_ids stamp_buffers stamp_packets stamp
    Header.set_packet_id_raw Header.write_word write_at Header.serialize le_bytes Socket.sendmmsg
    Header.new io_wait Socket.poll
sent_two = (refl, refl)

received_two : arrived whole 24 swapped waiting ≡ memory 1 ∷ memory 0 ∷ []
unfolding write_at Header.serialize le_bytes
received_two = refl

brings-Delivers : (id : ℕ) → id < 100 → (r : Receiver) → Delivers 24 (brings id) r
brings-Delivers id l r = record {
  others = 0;
  answered = refl;
  first = mmsghdr id;
  next = [];
  there = refl;
  room = omega arith;
  whole = (mmsghdr-IsWhole id l, tt);
}

transfer_complete_example :
    let amount = length (on_wire whole poll 0 rounds runner) * 1 in
    EndsAt whole measurement 7 4 1 24 amount (send_loop whole poll 0 rounds runner)
    × ((receive_all whole swapped waiting).0 ≡ ok tt)
    × HasAll 7 amount (receive_all whole swapped waiting).1
transfer_complete_example =
    transfer_complete whole 7 4 1 24 poll 0 rounds runner swapped waiting untouched (omega arith)
      (omega arith) runner-IsSending (omega arith) rounds-Kernels refl untouched-IsFresh
      untouched-amount refl refl
      (brings-Delivers 1 (omega arith) _, (brings-Delivers 0 (omega arith) _, tt))
      (omega (arith, sent_two.1)) (rw (sent_two.0, received_two) (∣ Permᴰ.swap refl refl ∣₁))

-- Only the second message comes.
abbrev one_lost : List (Reception × F64)
one_lost = (brings 1, 3) ∷ []

one_arrives :
    Perm
      (datagrams_on 1 24 (on_wire whole poll 0 rounds runner))
      (arrived whole 24 one_lost waiting ++ (memory 0 ∷ []))
unfolding write_at Header.serialize le_bytes
one_arrives = rw (sent_two.0) (∣ Permᴰ.swap refl refl ∣₁)

transfer_counts_example :
    let amount = length (on_wire whole poll 0 rounds runner) * 1 in
    EndsAt whole measurement 7 4 1 24 amount (send_loop whole poll 0 rounds runner)
    × ((receive_all whole one_lost waiting).0 ≡ ok tt)
    × HasCounted 7 amount
        (map id_of (arrived whole 24 one_lost waiting))
        (receive_all whole one_lost waiting).1
transfer_counts_example =
    transfer_counts whole 7 4 1 24 poll 0 rounds runner one_lost waiting untouched (memory 0 ∷ [])
      (omega arith) (omega arith) runner-IsSending (omega arith) rounds-Kernels refl
      untouched-IsFresh untouched-amount refl refl (brings-Delivers 1 (omega arith) _, tt)
      (omega (arith, sent_two.1)) one_arrives
