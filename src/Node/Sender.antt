-- ===== src/Node/Sender.antt =====
-- src/node/sender.rs: the sender of one thread. The answers of the kernel are arguments.
pub mod Answers
pub mod Frames
pub mod Ids
pub mod Run
pub mod Requests
use nperf.Base.{
  ℕ, zero, suc, ◌+◌, ◌-◌, ◌*◌, ◌==◌, ◌&&◌, ℤ, pos, negsuc, Bool, true, false, not, List, [], ◌∷◌,
  ◌++◌, Option, none, some, if◌then◌else◌, length, add64, sub64, mul64, Outcome, ok, err, fault,
  Fault, Error, eagain, econnrefused, start_the_receiver_first, failed_to_receive_data,
  error_creating_buffer, unwrap, unwrap_some, ◌>>=◌,
}
use nperf.Config.{
  Parameter, ExchangeFunction, normal, msg, mmsg, IoModel, select, poll, is_sharing, is_individual,
}
use nperf.Config.Floats.{Floats, F64}
use nperf.Net.Header
use nperf.Net.Header.{MessageType, serialize}
use nperf.Net.Socket
use nperf.Net.Socket.{Socket, Answer, get_sockaddr_out}
use nperf.Statistic.{Statistic}
use nperf.Statistic.Interval.{StatisticInterval}
use nperf.Buffer.Msghdr
use nperf.Buffer.Msghdr.{SockaddrIn, Msghdr, copy_buffer, set_address, get_msghdr}
use nperf.Buffer.MsghdrVec
use nperf.Buffer.MsghdrVec.{with_random_payload, with_message_header, with_target_address}
use nperf.Buffer.PacketBuffer
use nperf.Buffer.PacketBuffer.{
  PacketBuffer, Mmsghdr, add_packet_ids, get_msghdr_from_index, get_buffer_pointer_from_index,
  return_buffer_index,
}
use nperf.Packets.{get_total_bytes}
use nperf.Uring.{check_multishot_status}
use nperf.Node.Receiver.Completion.{Cqe}

pub record Sender : Type 0 where
  pub test_id : ℕ
  pub packet_buffer : PacketBuffer
  pub socket : Socket
  pub parameter : Parameter
  pub io_uring_sqpoll_fd : Option ℕ
  pub statistic : Statistic
  pub statistic_interval : StatisticInterval
  pub run_time_length : ℕ
  pub next_packet_id : ℕ
  pub exchange_function : ExchangeFunction

-- `Err("ECONNREFUSED")` becomes the advice to the user.
abbrev pub advise : Error → Error
advise econnrefused = start_the_receiver_first
advise e = e

-- The result of a call, and the sender afterwards.
abbrev pub Sent : Type 0
Sent = Outcome (Unit {0}) × Sender

-- The stamped buffers, and the ids used; no buffer is stamped where this fails.
abbrev pub stamped : ℕ → PacketBuffer → Sender → Sender
stamped amount b s = record s { packet_buffer = b; next_packet_id = add64 s.next_packet_id amount }

-- What an error of the socket leaves: after EAGAIN, the ids are free again.
abbrev pub not_sent : ℕ → Error → Sender → Sent
not_sent amount eagain s = (err eagain, record s { next_packet_id = sub64 s.next_packet_id amount })
not_sent amount e s = (err (advise e), s)

-- The counters after `amount` datagrams with `bytes` bytes were sent.
abbrev pub count_sent : ℕ → ℕ → Statistic → Statistic
count_sent amount bytes t = record t {
  amount_datagrams = add64 t.amount_datagrams amount;
  amount_data_bytes = add64 t.amount_data_bytes bytes;
}

abbrev pub conclude : ℕ → Outcome ℕ → Sender → Sent
conclude amount (err e) s = not_sent amount e s
conclude amount (fault x) s = (fault x, s)
conclude amount (ok bytes) s = (ok tt, record s { statistic = count_sent amount bytes s.statistic })

-- The call on the stamped buffers; `?` where the stamping fails.
abbrev pub with_ids : (ℕ → Sender → Sent) → Outcome (ℕ × PacketBuffer) → Sender → Sent
with_ids call (err e) s = (err e, s)
with_ids call (fault x) s = (fault x, s)
with_ids call (ok (amount, b)) s = call amount (stamped amount b s)

-- Only the first buffer is used.
unfoldable pub send : Answer → Sender → Sent
send answer s = with_ids call (add_packet_ids s.next_packet_id none s.packet_buffer) s
  where
    call : ℕ → Sender → Sent
    call amount s =
        conclude amount
          (unwrap (get_buffer_pointer_from_index s.packet_buffer 0) >>= λ b.
            Socket.send s.packet_buffer.datagram_size answer)
          s

unfoldable pub sendmsg : Answer → Sender → Sent
sendmsg answer s = with_ids call (add_packet_ids s.next_packet_id none s.packet_buffer) s
  where
    call : ℕ → Sender → Sent
    call amount s =
        conclude amount
          (unwrap (get_msghdr_from_index s.packet_buffer 0) >>= λ h. Socket.sendmsg answer) s

-- The ids of the messages that were not sent are free again.
abbrev pub conclude_mmsg : ℕ → Outcome ℕ → Sender → Sent
conclude_mmsg amount (err e) s = not_sent amount e s
conclude_mmsg amount (fault x) s = (fault x, s)
conclude_mmsg amount (ok sent) s =
    let b = s.packet_buffer in
    let per = b.packets_amount_per_msghdr in
    let count = length b.mmsghdr_vec in
    (
      ok tt,
      record s {
        next_packet_id =
            if sent == count
            then s.next_packet_id
            else sub64 s.next_packet_id (mul64 (sub64 count sent) per);
        statistic = count_sent (mul64 sent per) (get_total_bytes b.mmsghdr_vec sent) s.statistic;
      },
    )

-- `wrote` is what the kernel makes of the messages: their lengths, which are summed up afterwards.
unfoldable pub sendmmsg : Answer → (List Mmsghdr → List Mmsghdr) → Sender → Sent
sendmmsg answer wrote s = with_ids call (add_packet_ids s.next_packet_id none s.packet_buffer) s
  where
    written : PacketBuffer → PacketBuffer
    written b = record b { mmsghdr_vec = wrote b.mmsghdr_vec }

    call : ℕ → Sender → Sent
    call amount s =
        conclude_mmsg amount (Socket.sendmmsg answer)
          (record s { packet_buffer = written s.packet_buffer })

unfoldable pub send_messages : Answer → (List Mmsghdr → List Mmsghdr) → Sender → Sent
unfolding send sendmsg sendmmsg
send_messages answer wrote s = elim s.exchange_function [
  | normal ↦ send answer s
  | msg ↦ sendmsg answer s
  | mmsg ↦ sendmmsg answer wrote s
]

-- The answer is that of `select` or `poll`.
unfoldable pub io_wait : IoModel → Answer → Outcome (Unit {0})
io_wait select answer = Socket.select answer
io_wait poll answer = Socket.poll answer
io_wait _ answer = ok tt

abbrev advised : {A : Type 0} → Outcome A → Outcome (Unit {0})
advised (ok a) = ok tt
advised (err e) = err (advise e)
advised (fault x) = fault x

module _ (fl : Floats) where
  -- The message that goes to the kernel is built first.
  unfoldable pub control_message : MessageType → Sender → Outcome Msghdr
  control_message mtype s =
      let header = Header.new mtype s.test_id 0 in
      Msghdr.new fl (Header.len header) (Header.len header) >>= λ w. elim w [
        | none ↦ err error_creating_buffer
        | some w ↦ unwrap_some (get_sockaddr_out s.socket) >>= λ address.
            ok (get_msghdr (set_address address (copy_buffer (serialize header) w)))
      ]

  -- `answer h` is that of the kernel to the message `h`.
  unfoldable pub send_control_message :
      MessageType → (Msghdr → Answer) → Sender → Outcome (Unit {0})
  unfolding control_message
  send_control_message mtype answer s =
      control_message mtype s >>= λ h. advised (Socket.sendmsg (answer h))

  unfoldable pub create_packet_buffer : Parameter → ℕ → Socket → Outcome PacketBuffer
  create_packet_buffer p test_id socket = do
    v ← MsghdrVec.new fl p.packet_buffer_size p.mss p.datagram_size
    w ← with_message_header test_id (with_random_payload v)
    ok (
        PacketBuffer.new (elim (get_sockaddr_out socket) [
          | none ↦ w
          | some address ↦
              if is_sharing p.multiplex_port && is_individual p.multiplex_port_receiver
              then with_target_address address w
              else w
        ]))

-- `self.statistic.amount_omitted_datagrams += amount_datagrams as i64`
abbrev pub omit : ℕ → Statistic → Statistic
omit amount t = record t { amount_omitted_datagrams = add64 t.amount_omitted_datagrams amount }

-- -11 is EAGAIN, -111 ECONNREFUSED. The result and the statistic, after `count` completions.
unfoldable pub complete_send : ℕ → List Cqe → ℕ → Statistic → Outcome ℕ × Statistic
complete_send amount [] count t = (ok count, t)
complete_send amount (c ∷ cs) count t = elim c.result [
  | pos n ↦ complete_send amount cs (count + 1) (count_sent amount n t)
  | negsuc n ↦
      let rest = complete_send amount cs count (omit amount t) in
      if n == 10
      then rest
      else if n == 110
      then (err start_the_receiver_first, t)
      else (err failed_to_receive_data, t)
]

unfoldable pub io_uring_complete_send : List Cqe → Sender → Outcome ℕ × Sender
unfolding complete_send
io_uring_complete_send cs s =
    let d = complete_send s.packet_buffer.packets_amount_per_msghdr cs 0 s.statistic in
    (d.0, record s { statistic = d.1 })

-- The second event of a request: no IORING_CQE_F_MORE, but IORING_CQE_F_NOTIF.
module _ (more notif : ℕ → Bool) where
  abbrev is_second : Cqe → Bool
  is_second c = not (check_multishot_status more c.flags) && notif c.flags

  -- The result with the indices to give back, and the statistic.
  unfoldable pub complete_send_zc :
      ℕ → List Cqe → ℕ → List ℕ → Statistic → Outcome (ℕ × List ℕ) × Statistic
  complete_send_zc amount [] count pool t = (ok (count, pool), t)
  complete_send_zc amount (c ∷ cs) count pool t =
      let given = pool ++ (c.user_data ∷ []) in
      let returned = complete_send_zc amount cs (count + 1) given in
      let nothing = complete_send_zc amount cs count pool t in
      elim c.result [
        | pos zero ↦ if is_second c then returned t else nothing
        | pos (suc n) ↦ complete_send_zc amount cs count pool (count_sent amount (suc n) t)
        | negsuc n ↦
            let omitted = complete_send_zc amount cs count given (omit amount t) in
            if n == 10
            then omitted
            else if n == 110
            then (err start_the_receiver_first, t)
            else if n == 2147483647
            then (if is_second c
                then returned (record t { uring_copied_zc = add64 t.uring_copied_zc 1 })
                else nothing)
            else (err failed_to_receive_data, t)
      ]

  unfoldable pub io_uring_complete_send_zc : (ℕ → ℕ → ℕ) → List Cqe → Sender → Outcome ℕ × Sender
  unfolding complete_send_zc
  io_uring_complete_send_zc grow cs s =
      let d = complete_send_zc s.packet_buffer.packets_amount_per_msghdr cs 0 [] s.statistic in
      let counted : Sender = record s { statistic = d.1 } in
      elim d.0 [
        | err e ↦ (err e, counted)
        | fault x ↦ (fault x, counted)
        | ok (count, pool) ↦ (
          ok count,
          record counted { packet_buffer = return_buffer_index grow pool s.packet_buffer },
        )
      ]
