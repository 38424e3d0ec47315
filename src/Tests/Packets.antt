-- ===== src/Tests/Packets.antt =====
-- The theorems on headers and packets at concrete inputs.
use nperf.Base.{none, ℕ, ◌+◌, ◌*◌, ◌≤◌, ◌≡◌, refl, List, [], ◌∷◌, arith, length, replicate, ok}
use nperf.Net.Header.{
  MessageType, measurement, serialize, Slice, get_message_type, get_test_id, get_packet_id,
  set_packet_id_raw,
}
use nperf.Net.Header
use nperf.Net.Header.Bytes.{le_bytes, of_le, write_at}
use nperf.Net.Header.RoundTrip.{serialize_round_trip}
use nperf.Statistic.{Statistic}
use nperf.Statistic
use nperf.Buffer.Msghdr.{Msghdr}
use nperf.Buffer.PacketBuffer.{Mmsghdr, add_packet_ids}
use nperf.Buffer.PacketBuffer.Ids.{AllFilled, Numbered, add_packet_ids-Numbered}
use nperf.Packets.{
  process_packet_buffer, process_packet_msghdr, single_packet_size, get_gso_size_from_cmsg,
}
use nperf.Packets.Accounting.{receive_numbers, receive_numbers_balance, IsFresh}
use nperf.Packets.Chunks.{Carries, process_packet_msghdr_lem, process_packet_buffer_in_order}
use nperf.Tests.{fresh, message, message-IsFilled, buffers}

fresh-IsFresh : IsFresh fresh
unfolding Statistic.new
fresh-IsFresh = record { omitted = refl; reordered = refl; duplicated = refl }

serialize_round_trip_example :
    let s : Slice = record {
      memory = write_at (replicate 50 0) 24 (serialize (Header.new measurement 7 300));
      start = 24;
      len = 26;
    } in
    (get_message_type s ≡ ok measurement) × (get_test_id s ≡ ok 7) × (get_packet_id s ≡ ok 300)
serialize_round_trip_example =
    serialize_round_trip measurement 7 300 (replicate 50 0) 24 26 (omega arith) (omega arith)
      (omega arith) (omega arith)

-- Packet 1 is late, packet 2 comes twice.
receive_numbers_balance_example :
    let r = receive_numbers (0 ∷ 2 ∷ 1 ∷ 2 ∷ []) 0 fresh in
    (r.1.amount_omitted_datagrams + 4 ≡ r.0 + r.1.amount_duplicated_datagrams)
    × (r.0 ≡ 3)
    × (r.1.amount_reordered_datagrams + r.1.amount_duplicated_datagrams ≤ 4)
receive_numbers_balance_example =
    receive_numbers_balance (0 ∷ 2 ∷ 1 ∷ 2 ∷ []) fresh
      (omega arith, (omega arith, (omega arith, (omega arith, tt)))) (omega arith) fresh-IsFresh

-- Two datagrams of 24 bytes with the ids 4 and 5.
abbrev two_datagrams : List ℕ
two_datagrams =
    write_at (write_at (replicate 48 0) 0 (serialize (Header.new measurement 7 4))) 24
      (serialize (Header.new measurement 7 5))

two_datagrams-Carries : Carries two_datagrams 24 measurement 7 0 (4 ∷ 5 ∷ [])
unfolding write_at le_bytes of_le serialize Header.new
two_datagrams-Carries = (
  record { room = omega arith; kind = refl; test = refl; packet = refl },
  (record { room = omega arith; kind = refl; test = refl; packet = refl }, tt),
)

abbrev two_message : Msghdr
two_message = record (message 0) {
  iov_base = two_datagrams;
  iov_len = 48;
  msg_control = (record { level = 17; cmsg_type = 104; value = 24 } ∷ []);
}

process_packet_msghdr_lem_example :
    process_packet_msghdr two_message 48 4 fresh
    ≡ ok ((receive_numbers (4 ∷ 5 ∷ []) 4 fresh).0, 2, (receive_numbers (4 ∷ 5 ∷ []) 4 fresh).1)
unfolding single_packet_size get_gso_size_from_cmsg
process_packet_msghdr_lem_example =
    process_packet_msghdr_lem measurement 7 24 24 4 4 (5 ∷ []) two_message fresh refl (omega arith)
      (omega arith) refl (omega arith) two_datagrams-Carries

-- Two datagrams in order are counted as three, one of them omitted.
process_packet_buffer_in_order_example :
    (amount : ℕ) × (s : Statistic) × (process_packet_buffer
        (record { memory = two_datagrams; start = 0; len = 48 })
        24
        4
        fresh
      ≡ ok (amount, s))
    × (2 * amount ≡ 6)
    × (2 * s.amount_omitted_datagrams ≡ 2 * fresh.amount_omitted_datagrams + 2)
process_packet_buffer_in_order_example =
    process_packet_buffer_in_order measurement 7 24 24 4 1 two_datagrams fresh (omega arith)
      (omega arith) (omega arith) (omega arith) (omega (arith, fresh-IsFresh.omitted))
      two_datagrams-Carries

add_packet_ids-Numbered_example :
    (ms : List Mmsghdr) × (add_packet_ids 300 none buffers
      ≡ ok (4, record buffers { mmsghdr_vec = ms }))
    × AllFilled 1 24 measurement 7 ms
    × Numbered 1 24 measurement 7 4 300 ms
    × (length ms ≡ 4)
add_packet_ids-Numbered_example =
    add_packet_ids-Numbered measurement 7 300 none buffers
      (
        message-IsFilled 0 (omega arith),
        (
          message-IsFilled 1 (omega arith),
          (message-IsFilled 2 (omega arith), (message-IsFilled 3 (omega arith), tt)),
        ),
      )
      (omega arith)
