-- ===== src/Node/Receiver/Completion.antt =====
-- The completion of requests on io_uring by the receiver: `handle_recvmsg_return`,
-- `io_uring_complete_normal`, `io_uring_complete_provided_buffers` and
-- `io_uring_complete_multishot` of src/node/receiver.rs.
use nperf.Base.{
  ℕ, zero, suc, ◌+◌, ◌-◌, ◌^◌, ◌==◌, ◌&&◌, ℤ, pos, negsuc, Bool, true, false, List, [], ◌∷◌, ◌++◌,
  Option, none, some, if◌then◌else◌, get_elem?, add64, add32, Outcome, ok, err, fault, Fault,
  panicked, undefined, init_message_received, unwrap, leb, ◌>>=◌, Error,
}
use nperf.Config.{is_normal_mode, Parameter, uring_additional_buffer_length}
use nperf.Config.Floats.{F64, Floats}
use nperf.Net.Header.{Slice}
use nperf.Statistic.{Statistic, Measurement}
use nperf.Buffer.Msghdr.{Msghdr, buffer_of, null, Cmsg}
use nperf.Buffer.PacketBuffer.{PacketBuffer, get_msghdr_from_index, return_buffer_index}
use nperf.Packets.{process_packet_msghdr}
use nperf.Uring.{parse_received_bytes, check_multishot_status}
use nperf.Node.Receiver.{Receiver}
use nperf.Node.Receiver.Recv.{count_received, take_message, reset_at}
pub mod Drained

-- A completion: the result and the user data, as the crate io_uring gives them.
pub record Cqe : Type 0 where
  pub result : ℤ
  pub user_data : ℕ
  pub flags : ℕ

-- `amount as usize`
abbrev pub as_usize : ℤ → ℕ
as_usize (pos n) = n
as_usize (negsuc n) = 2 ^ 64 - suc n

-- The message to count: in the normal mode always that of the buffers.
abbrev pub message_of : Option Msghdr → ℕ → Receiver → Outcome Msghdr
message_of none i r = unwrap (get_msghdr_from_index r.packet_buffer i)
message_of (some h) i r =
    if is_normal_mode r.parameter.uring_parameter.uring_mode
    then unwrap (get_msghdr_from_index r.packet_buffer i)
    else ok h

-- The buffers keep the reset fields unless the message is the caller's.
abbrev pub buffers_after : Option Msghdr → ℕ → Receiver → PacketBuffer
buffers_after none i r = reset_at r.parameter.socket_options.gro i r.packet_buffer
buffers_after (some h) i r =
    if is_normal_mode r.parameter.uring_parameter.uring_mode
    then reset_at r.parameter.socket_options.gro i r.packet_buffer
    else r.packet_buffer

-- The buffer whose header is read.
abbrev pub buffer_read : Option Msghdr → ℕ → Receiver → Outcome Slice
buffer_read none i r = unwrap (get_msghdr_from_index r.packet_buffer i) >>= λ h. ok (buffer_of h)
buffer_read (some h) i r = ok (buffer_of h)

unfoldable pub count_return : ℤ → Option Msghdr → ℕ → ℕ → Measurement → Receiver → Outcome Receiver
count_return amount msghdr i test_id m r = message_of msghdr i r >>= λ h.
    process_packet_msghdr h (as_usize amount) r.next_packet_id m.statistic >>= λ q.
    ok (record (count_received test_id m q.1 (as_usize amount) q.2 r) {
      next_packet_id = q.0;
      packet_buffer = buffers_after msghdr i r;
    })

-- What the crate's RecvMsgOut::parse makes of the buffer that a completion names: the payload and
-- the control data with their length, none if it does not fit.
pub record RecvMsgOut : Type 0 where
  pub payload : List ℕ
  pub control : List Cmsg
  pub control_len : ℕ

-- `amount_received_bytes - URING_ADDITIONAL_BUFFER_LENGTH` of a positive amount.
abbrev minus_additional : ℕ → ℤ
minus_additional n =
    if leb uring_additional_buffer_length n
    then pos (n - uring_additional_buffer_length)
    else negsuc (uring_additional_buffer_length - suc n)

-- The header that is built around a buffer of the ring.
abbrev built : List ℕ → ℕ → List Cmsg → ℕ → Msghdr
built memory len control controllen = record {
  msg_name = null;
  iov_base = memory;
  iov_len = len;
  msg_iovlen = 1;
  msg_control = control;
  msg_controllen = controllen;
  msg_flags = 0;
}

-- `Err("INIT_MESSAGE_RECEIVED")`
abbrev pub is_init : Error → Bool
is_init init_message_received = true
is_init _ = false

-- The collected indices are given back only if the loop is not left early.
abbrev pub given_back : (ℕ → ℕ → ℕ) → Outcome (ℕ × List ℕ) × Receiver → Outcome ℕ × Receiver
given_back grow (err e, r) = (err e, r)
given_back grow (fault x, r) = (fault x, r)
given_back grow (ok (count, pool), r) =
    (ok count, record r { packet_buffer = return_buffer_index grow pool r.packet_buffer })

module _ (fl : Floats) (now : F64) where
  unfoldable pub handle_recvmsg_return :
      ℤ → Option Msghdr → ℕ → Receiver → Outcome (Unit {0}) × Receiver
  unfolding take_message count_return
  handle_recvmsg_return amount msghdr i r =
      take_message fl (buffer_read msghdr i r) (count_return amount msghdr i) now r

  -- The loop over the completions of the normal mode: the count and the indices to give back, or
  -- the error with which it leaves.
  unfoldable pub drain_normal : List Cqe → ℕ → List ℕ → Receiver → Outcome (ℕ × List ℕ) × Receiver
  unfolding handle_recvmsg_return
  drain_normal [] count pool r = (ok (count, pool), r)
  drain_normal (c ∷ cs) count pool r = elim (parse_received_bytes c.result) [
    | err e ↦ (err e, r)
    | fault x ↦ (fault x, r)
    | ok k ↦
        let h = handle_recvmsg_return c.result none c.user_data r in
        let rest = drain_normal cs (add32 count k) (pool ++ (c.user_data ∷ [])) h.1 in
        elim h.0 [
          | ok u ↦ rest
          | fault x ↦ (fault x, h.1)
          | err e ↦ if is_init e then rest else (err e, h.1)
        ]
  ]

  unfoldable pub io_uring_complete_normal : (ℕ → ℕ → ℕ) → List Cqe → Receiver → Outcome ℕ × Receiver
  unfolding drain_normal
  io_uring_complete_normal grow cs r = given_back grow (drain_normal cs 0 [] r)

  -- `provided flags len` is the buffer of the ring that a completion names,
  -- which the crate looks up; the result, the statistic of the loop, and the receiver.
  unfoldable pub io_uring_complete_provided_buffers :
      (ℕ → ℕ → List ℕ) → List Cqe → ℕ → Statistic → Receiver → Outcome ℕ × Statistic × Receiver
  unfolding handle_recvmsg_return
  io_uring_complete_provided_buffers provided [] count s r = (ok count, s, r)
  io_uring_complete_provided_buffers provided (c ∷ cs) count s r =
      elim (parse_received_bytes c.result) [
        | err e ↦ (err e, s, r)
        | fault x ↦ (fault x, s, r)
        | ok zero ↦
            io_uring_complete_provided_buffers provided cs (add32 count 1)
              (record s { uring_out_of_buffers = add64 s.uring_out_of_buffers 1 }) r
        | ok (suc k) ↦
            let n = as_usize c.result in
            let (result, r') =
              handle_recvmsg_return c.result (some (built (provided c.flags n) n [] 0)) c.user_data
                r in
            elim result [
              | err e ↦ (err e, s, r')
              | fault x ↦ (fault x, s, r')
              | ok u ↦ io_uring_complete_provided_buffers provided cs (add32 count (suc k)) s r'
            ]
      ]

  unfoldable pub io_uring_complete_multishot :
      (ℕ → Bool)
      → (ℕ → ℕ → Option RecvMsgOut)
      → List Cqe
      → Bool
      → Receiver
      → Outcome Bool × Receiver
  unfolding handle_recvmsg_return
  io_uring_complete_multishot more parse [] armed r = (ok armed, r)
  io_uring_complete_multishot more parse (c ∷ cs) armed r =
      let armed' = armed && check_multishot_status more c.flags in
      elim (parse_received_bytes c.result) [
        | err e ↦ (err e, r)
        | fault x ↦ (fault x, r)
        | ok zero ↦ io_uring_complete_multishot more parse cs armed' r
        | ok (suc k) ↦ elim (parse c.flags (as_usize c.result)) [
          | none ↦ (fault panicked, r)
          | some out ↦
              let amount = minus_additional (as_usize c.result) in
              let h = built out.payload (as_usize amount) out.control out.control_len in
              let (result, r') = handle_recvmsg_return amount (some h) 0 r in
              elim result [
                | err e ↦ (err e, r')
                | fault x ↦ (fault x, r')
                | ok u ↦ io_uring_complete_multishot more parse cs armed' r'
              ]
        ]
      ]
