-- ===== src/Node/Receiver/Recv.antt =====
-- `recv_messages`, `recv`, `recvmsg`, `recvmmsg` and `io_wait` of src/node/receiver.rs.
use nperf.Base.{
  ℕ, zero, suc, ◌==◌, ◌&&◌, Bool, List, [], ◌∷◌, none, some, if◌then◌else◌, get_elem?, set, add64,
  Outcome, ok, err, fault, unwrap, unwrap_some, ◌>>=◌,
}
use nperf.Config.{normal, msg, mmsg, IoModel, select, poll}
use nperf.Config.Floats.{F64, Floats}
use nperf.Net.Header.{Slice, MessageType, get_test_id, get_message_type}
use nperf.Net.Socket
use nperf.Net.Socket.{Answer}
use nperf.Statistic.{Statistic, Measurement}
use nperf.Buffer.PacketBuffer.{
  PacketBuffer, Mmsghdr, reset_msghdr_fields, reset_fields, get_msghdr_from_index,
  get_buffer_pointer_from_index,
}
use nperf.Packets.{process_packet_buffer, process_packet_msghdr, get_total_bytes}
use nperf.Node.Receiver.{Receiver, Reception, received}
use nperf.Node.Receiver.Measurements.{parse_message_type}

abbrev pub in_measurement_poll_timeout : ℕ
in_measurement_poll_timeout = 1000

-- The counters after `packets` and `bytes` were counted, in the measurement of the test.
abbrev pub count_received : ℕ → Measurement → ℕ → ℕ → Statistic → Receiver → Receiver
count_received test_id m packets bytes s r = record r {
  measurements = set r.measurements test_id (record m {
    statistic = record s {
      amount_datagrams = add64 s.amount_datagrams packets;
      amount_data_bytes = add64 s.amount_data_bytes bytes;
    };
  });
}

-- The test id and the type of the message in a buffer.
abbrev pub read_header : Slice → Outcome (ℕ × MessageType)
read_header buffer = get_test_id buffer >>= λ t. get_message_type buffer >>= λ mtype. ok (t, mtype)

-- `index >= amount` ends the loop of recvmmsg: the messages, the next id, and what was received.
module _ (gro : Bool) where
  unfoldable pub process_msghdrs :
      List Mmsghdr → ℕ → ℕ → ℕ → Statistic → Outcome (List Mmsghdr × ℕ × ℕ × Statistic)
  process_msghdrs [] amount next_packet_id got s = ok ([], next_packet_id, got, s)
  process_msghdrs (m ∷ ms) zero next_packet_id got s = ok (m ∷ ms, next_packet_id, got, s)
  process_msghdrs (m ∷ ms) (suc amount) next_packet_id got s =
      process_packet_msghdr m.msg_hdr m.msg_len next_packet_id s >>= λ q.
      process_msghdrs ms amount q.0 (add64 got q.1) q.2 >>= λ rest. ok (
        (if gro then record m { msg_hdr = reset_fields m.msg_hdr } else m) ∷ rest.0,
        rest.1,
        rest.2,
        rest.3,
      )

-- The reset of the fields of one message in the buffers.
abbrev pub reset_at : Bool → ℕ → PacketBuffer → PacketBuffer
reset_at gro i b = elim (get_elem? b.mmsghdr_vec i) [
  | none ↦ b
  | some m ↦
      if gro
      then record b {
        mmsghdr_vec = set b.mmsghdr_vec i (record m { msg_hdr = reset_fields m.msg_hdr });
      }
      else b
]

abbrev pub after_count : Receiver → Outcome Receiver → Outcome (Unit {0}) × Receiver
after_count r (err e) = (err e, r)
after_count r (fault x) = (fault x, r)
after_count r (ok done) = (ok tt, done)

-- An early return leaves the measurements as the message left them.
abbrev pub after_parse :
    (ℕ → Measurement → Receiver → Outcome Receiver)
    → ℕ
    → Receiver
    → Outcome (Unit {0})
    → Outcome (Unit {0}) × Receiver
after_parse count test_id r (err e) = (err e, r)
after_parse count test_id r (fault x) = (fault x, r)
after_parse count test_id r (ok u) =
    after_count r (unwrap_some (get_elem? r.measurements test_id) >>= λ m. count test_id m r)

module _ (fl : Floats) where
  abbrev pub after_header :
      (ℕ → Measurement → Receiver → Outcome Receiver)
      → F64
      → Receiver
      → Outcome (ℕ × MessageType)
      → Outcome (Unit {0}) × Receiver
  after_header count now r (err e) = (err e, r)
  after_header count now r (fault x) = (fault x, r)
  after_header count now r (ok (test_id, mtype)) =
      let p = parse_message_type fl mtype test_id now r.parameter r.measurements in
      after_parse count test_id (record r { measurements = p.1 }) p.0

  -- The message of a buffer is parsed, and then its datagrams are counted by `count`.
  unfoldable pub take_message :
      Outcome Slice
      → (ℕ → Measurement → Receiver → Outcome Receiver)
      → F64
      → Receiver
      → Outcome (Unit {0}) × Receiver
  take_message buffer count now r = after_header count now r (unwrap buffer >>= read_header)

  -- The number of packets is added to the next id.
  unfoldable pub count_buffer : ℕ → ℕ → Measurement → Receiver → Outcome Receiver
  count_buffer amount_received_bytes test_id m r =
      unwrap (get_buffer_pointer_from_index r.packet_buffer 0) >>= λ buffer.
      process_packet_buffer buffer r.packet_buffer.datagram_size r.next_packet_id m.statistic
      >>= λ q. ok (record (count_received test_id m q.0 amount_received_bytes q.1 r) {
        next_packet_id = add64 r.next_packet_id q.0;
      })

  unfoldable pub recv : Reception → F64 → Receiver → Outcome (Unit {0}) × Receiver
  unfolding take_message count_buffer
  recv k now r = elim (Socket.recv k.answer) [
    | err e ↦ (err e, received k r)
    | fault x ↦ (fault x, received k r)
    | ok n ↦
        let b = (received k r).packet_buffer in
        take_message (get_buffer_pointer_from_index b 0) (count_buffer n) now (received k r)
  ]

  unfoldable pub count_msghdr : ℕ → ℕ → Measurement → Receiver → Outcome Receiver
  count_msghdr amount_received_bytes test_id m r =
      unwrap (get_msghdr_from_index r.packet_buffer 0) >>= λ h.
      process_packet_msghdr h amount_received_bytes r.next_packet_id m.statistic >>= λ q.
      ok (record (count_received test_id m q.1 amount_received_bytes q.2 r) {
        next_packet_id = q.0;
        packet_buffer = reset_at r.parameter.socket_options.gro 0 r.packet_buffer;
      })

  unfoldable pub recvmsg : Reception → F64 → Receiver → Outcome (Unit {0}) × Receiver
  unfolding take_message count_msghdr
  recvmsg k now r = elim (Socket.recvmsg k.answer) [
    | err e ↦ (err e, received k r)
    | fault x ↦ (fault x, received k r)
    | ok n ↦
        let b = (received k r).packet_buffer in
        take_message (get_buffer_pointer_from_index b 0) (count_msghdr n) now (received k r)
  ]

  unfoldable pub count_msghdrs : ℕ → ℕ → Measurement → Receiver → Outcome Receiver
  unfolding process_msghdrs
  count_msghdrs amount test_id m r =
      let b = r.packet_buffer in
      process_msghdrs r.parameter.socket_options.gro b.mmsghdr_vec amount r.next_packet_id 0
        m.statistic
      >>= λ q.
          ok (record (count_received test_id m q.2 (get_total_bytes b.mmsghdr_vec amount) q.3 r) {
            next_packet_id = q.1;
            packet_buffer = record b { mmsghdr_vec = q.0 };
          })

  unfoldable pub recvmmsg : Reception → F64 → Receiver → Outcome (Unit {0}) × Receiver
  unfolding take_message count_msghdrs
  recvmmsg k now r = elim (Socket.recvmmsg k.answer) [
    | err e ↦ (err e, received k r)
    | fault x ↦ (fault x, received k r)
    | ok zero ↦ (ok tt, received k r)
    | ok (suc n) ↦
        let b = (received k r).packet_buffer in
        take_message (get_buffer_pointer_from_index b 0) (count_msghdrs (suc n)) now (received k r)
  ]

  -- The fields are reset before the first packet of all.
  unfoldable pub recv_messages : Reception → F64 → Receiver → Outcome (Unit {0}) × Receiver
  unfolding recv recvmsg recvmmsg
  recv_messages k now r =
      let ready : Receiver =
        if r.parameter.socket_options.gro && r.next_packet_id == 0
        then record r { packet_buffer = reset_msghdr_fields r.packet_buffer }
        else r in
      elim r.exchange_function [
        | normal ↦ recv k now ready
        | msg ↦ recvmsg k now ready
        | mmsg ↦ recvmmsg k now ready
      ]

-- The answer is that of `select` or `poll`.
unfoldable pub io_wait : IoModel → Answer → Outcome (Unit {0})
io_wait select answer = Socket.select answer
io_wait poll answer = Socket.poll answer
io_wait _ answer = ok tt
