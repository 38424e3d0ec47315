-- ===== src/Node/Sender/Ids.antt =====
-- The packet ids and the counter of datagrams over `send_messages` of src/node/sender.rs.
use nperf.Node.Sender.Answers.{
  Ends, send-Ends, sendmsg-Ends, sendmmsg-Ends, sendmmsg_ok, first-Ends, pointer_there,
  msghdr_there,
}
use nperf.Base.{
  if◌then◌else◌, ◌==◌, ==_iff, ℕ, ◌+◌, ◌*◌, ◌-◌, ◌^◌, ◌≤◌, ◌<◌, ◌≡◌, ◌≢◌, refl, ap, ◌∙◌, inl, inr,
  List, arith, length, add64, sub64, mul64, min, Outcome, ok, err, Error, eagain, none, Bool-cases,
}
use nperf.Config.{ExchangeFunction, normal, msg, mmsg}
use nperf.Net.Header.{MessageType}
use nperf.Net.Socket
use nperf.Net.Socket.{Answer, returned, failed}
use nperf.Buffer.PacketBuffer.{
  PacketBuffer, Mmsghdr, add_packet_ids, get_msghdr_from_index, get_buffer_pointer_from_index,
}
use nperf.Buffer.PacketBuffer.Ids.{AllFilled, add_packet_ids-Numbered}
use nperf.Node.Sender.{
  Sender, Sent, send, sendmsg, sendmmsg, send_messages, conclude, conclude_mmsg, stamped, not_sent,
  advise,
}

-- The datagrams of all buffers.
abbrev pub datagrams : PacketBuffer → ℕ
datagrams b = length b.mmsghdr_vec * b.packets_amount_per_msghdr

-- What a call may do to the next id and to the counters.
pub data Sends (s : Sender) : Outcome (Unit {0}) → Sender → Type 0 where
  sent :
      (x : Sender) (d : ℕ)
      → d ≤ datagrams s.packet_buffer
      → x.next_packet_id ≡ s.next_packet_id + d
      → x.statistic.amount_datagrams ≡ s.statistic.amount_datagrams + d
      → Sends s (ok tt) x
  later :
      (x : Sender)
      → x.next_packet_id ≡ s.next_packet_id
      → x.statistic ≡ s.statistic
      → Sends s (err eagain) x
  aborted : (x : Sender) (e : Error) → e ≢ eagain → Sends s (err e) x

advise_ne : (e : Error) → e ≢ eagain → advise e ≢ eagain
advise_ne eagain n = n
advise_ne _ n = λ h. cc

module _ (s : Sender) (b : PacketBuffer) (a : ℕ) where
  not_sent-Sends :
      (e : Error) (x : Sender)
      → x.next_packet_id ≡ add64 s.next_packet_id a
      → x.statistic ≡ s.statistic
      → s.next_packet_id + a < 2 ^ 64
      → Sends s (not_sent a e x).0 (not_sent a e x).1
  not_sent-Sends eagain x n t small =
      later (record x { next_packet_id = sub64 x.next_packet_id a }) (omega arith) t
  not_sent-Sends _ x n t small = aborted _ _ (λ h. cc)

parts : (n c p : ℕ) → n ≤ c → (c - n) * p + n * p ≡ c * p
parts n c p h = grind arith

sub64_eq : (c n : ℕ) → n ≤ c → c < 2 ^ 64 → sub64 c n ≡ c - n
sub64_eq c n h k = omega arith

freed_ids :
    (next c n p : ℕ)
    → n ≤ c
    → c < 2 ^ 64
    → next + c * p < 2 ^ 64
    → sub64 (add64 next (c * p)) (mul64 (sub64 c n) p) ≡ next + n * p
freed_ids next c n p h k small = rw (sub64_eq c n h k) (omega (arith, parts n c p h))

-- The next id where `n` of `c` messages of `p` datagrams were sent.
pub next_after :
    (next c n p : ℕ)
    → n ≤ c
    → c < 2 ^ 64
    → next + c * p < 2 ^ 64
    → (if n == c then add64 next (c * p) else sub64 (add64 next (c * p)) (mul64 (sub64 c n) p))
      ≡ next + n * p
next_after next c n p few k i = elim (Bool-cases (n == c)) [
  | inl e ↦ rw e (rw ((==_iff n _).0 e) (omega arith))
  | inr e ↦ rw e (freed_ids next c n p few k i)
]

module _ (s : Sender) (b : PacketBuffer) where
  abbrev amount : ℕ
  amount = datagrams s.packet_buffer

  -- Neither the ids nor the counter wrap around.
  abbrev Room : Type 0
  Room =
      (s.next_packet_id + amount < 2 ^ 64)
      × (s.statistic.amount_datagrams + amount < 2 ^ 64)
      × (length s.packet_buffer.mmsghdr_vec < 2 ^ 64)

  conclude-Sends :
      (o : Outcome ℕ)
      → Ends o
      → Room
      → let r = conclude amount o (stamped amount b s) in Sends s r.0 r.1
  conclude-Sends o (inl (n, e)) (i, j, k) =
      rw e (sent _ amount (omega arith) (omega arith) (omega arith))
  conclude-Sends o (inr (x, e)) (i, j, k) =
      rw e (not_sent-Sends s b amount x (stamped amount b s) refl refl i)

  sent_some :
      (n : ℕ) (x : Sender)
      → s.next_packet_id + amount < 2 ^ 64
      → s.statistic.amount_datagrams + amount < 2 ^ 64
      → length s.packet_buffer.mmsghdr_vec < 2 ^ 64
      → n ≤ length s.packet_buffer.mmsghdr_vec
      → x.next_packet_id ≡ add64 s.next_packet_id amount
      → x.statistic ≡ s.statistic
      → length x.packet_buffer.mmsghdr_vec ≡ length s.packet_buffer.mmsghdr_vec
      → x.packet_buffer.packets_amount_per_msghdr ≡ s.packet_buffer.packets_amount_per_msghdr
      → let r = conclude_mmsg amount (ok n) x in Sends s r.0 r.1
  sent_some n x i j k few id t l p =
      let c = length s.packet_buffer.mmsghdr_vec in
      let q = s.packet_buffer.packets_amount_per_msghdr in
      sent _ (n * q) (omega (arith, parts n c q few))
        (ids_after x.packet_buffer.packets_amount_per_msghdr (length x.packet_buffer.mmsghdr_vec)
          x.next_packet_id p l id)
        (rw (p, t) (omega (arith, parts n c q few)))
    where
      ids_after :
          (per count next : ℕ)
          → per ≡ s.packet_buffer.packets_amount_per_msghdr
          → count ≡ length s.packet_buffer.mmsghdr_vec
          → next ≡ add64 s.next_packet_id amount
          → (if n == count then next else sub64 next (mul64 (sub64 count n) per))
            ≡ s.next_packet_id + n * s.packet_buffer.packets_amount_per_msghdr
      ids_after per count next p l id =
          rw (p, l, id)
            (next_after s.next_packet_id (length s.packet_buffer.mmsghdr_vec) n
              s.packet_buffer.packets_amount_per_msghdr few k i)

  -- The kernel sends no more messages than it was given.
  conclude_mmsg-Sends :
      (o : Outcome ℕ) (x : Sender)
      → Ends o
      → Room
      → ((n : ℕ) → o ≡ ok n → n ≤ length s.packet_buffer.mmsghdr_vec)
      → x.next_packet_id ≡ add64 s.next_packet_id amount
      → x.statistic ≡ s.statistic
      → length x.packet_buffer.mmsghdr_vec ≡ length s.packet_buffer.mmsghdr_vec
      → x.packet_buffer.packets_amount_per_msghdr ≡ s.packet_buffer.packets_amount_per_msghdr
      → let r = conclude_mmsg amount o x in Sends s r.0 r.1
  conclude_mmsg-Sends o x (inl (n, e)) (i, j, k) few id t l p =
      rw e (sent_some n x i j k (few n e) id t l p)
  conclude_mmsg-Sends o x (inr (y, e)) (i, j, k) few id t l p =
      rw e (not_sent-Sends s b amount y x id t i)

module _ (s : Sender) (answer : Answer) (ms : List Mmsghdr)
    (ids : add_packet_ids s.next_packet_id none s.packet_buffer
      ≡ ok (datagrams s.packet_buffer, record s.packet_buffer { mmsghdr_vec = ms }))
    (same : length ms ≡ length s.packet_buffer.mmsghdr_vec) (room : Room s s.packet_buffer)
    (some_buffer : 0 < length s.packet_buffer.mmsghdr_vec) where
  abbrev numbered : PacketBuffer
  numbered = record s.packet_buffer { mmsghdr_vec = ms }

  send-Sends : Sends s (send answer s).0 (send answer s).1
  unfolding send
  send-Sends = rw ids (
      conclude-Sends s numbered _
        (first-Ends get_buffer_pointer_from_index numbered _ (pointer_there numbered (omega arith))
          (send-Ends numbered.datagram_size answer))
        room)

  sendmsg-Sends : Sends s (sendmsg answer s).0 (sendmsg answer s).1
  unfolding sendmsg
  sendmsg-Sends = rw ids (
      conclude-Sends s numbered _
        (first-Ends get_msghdr_from_index numbered _ (msghdr_there numbered (omega arith))
          (sendmsg-Ends answer))
        room)

  sendmmsg-Sends :
      (wrote : List Mmsghdr → List Mmsghdr)
      → ((xs : List Mmsghdr) → length (wrote xs) ≡ length xs)
      → ((n : ℕ) → answer ≡ returned n → n ≤ length s.packet_buffer.mmsghdr_vec)
      → Sends s (sendmmsg answer wrote s).0 (sendmmsg answer wrote s).1
  unfolding sendmmsg
  sendmmsg-Sends wrote keeps few = rw ids (
      conclude_mmsg-Sends s numbered (Socket.sendmmsg answer) _ (sendmmsg-Ends answer) room
        (λ n e. few n (sendmmsg_ok answer n e)) refl refl (keeps ms ∙ same) refl)

-- A call of `send_messages` on buffers whose datagrams all hold a header of one type and test ends in one of three ways
-- and never in a panic: it is a success, and the next id and the counter of datagrams have risen by
-- the same number, at most that of the datagrams in the buffers; or it is EAGAIN, and the next id and
-- the statistic are as before; or it is another error. There is at least one buffer, the ids and the
-- counter stay below 2^64, and for sendmmsg the kernel keeps the number of the messages and sends no
-- more of them than there are.
pub send_messages-Sends :
    (kind : MessageType) (t : ℕ) (answer : Answer) (wrote : List Mmsghdr → List Mmsghdr)
    (s : Sender)
    → 0 < length s.packet_buffer.mmsghdr_vec
    → AllFilled s.packet_buffer.packets_amount_per_msghdr s.packet_buffer.datagram_size kind t
        s.packet_buffer.mmsghdr_vec
    → s.next_packet_id + datagrams s.packet_buffer < 2 ^ 64
    → s.statistic.amount_datagrams + datagrams s.packet_buffer < 2 ^ 64
    → length s.packet_buffer.mmsghdr_vec < 2 ^ 64
    → ((xs : List Mmsghdr) → length (wrote xs) ≡ length xs)
    → ((n : ℕ)
        → s.exchange_function ≡ mmsg
        → answer ≡ returned n
        → n ≤ length s.packet_buffer.mmsghdr_vec)
    → let r = send_messages answer wrote s in Sends s r.0 r.1
unfolding send_messages
send_messages-Sends kind t answer wrote s some_buffer f i j k keeps few =
    let b = s.packet_buffer in
    let all : min (length b.mmsghdr_vec) (length b.mmsghdr_vec) * b.packets_amount_per_msghdr
        ≡ datagrams b =
      ap (λ x. x * b.packets_amount_per_msghdr) (omega arith) in
    let (ms, eq, f', nums, same) =
      add_packet_ids-Numbered kind t s.next_packet_id none b f (rw all i) in
    let ids = eq ∙ ap (λ x. ok (x, record b { mmsghdr_vec = ms })) all in
    go s.exchange_function refl (send-Sends s answer ms ids same (i, j, k) some_buffer)
      (sendmsg-Sends s answer ms ids same (i, j, k) some_buffer)
      (λ m. sendmmsg-Sends s answer ms ids same (i, j, k) some_buffer wrote keeps (λ n. few n m))
  where
    go :
        (e : ExchangeFunction)
        → s.exchange_function ≡ e
        → Sends s (send answer s).0 (send answer s).1
        → Sends s (sendmsg answer s).0 (sendmsg answer s).1
        → (s.exchange_function ≡ mmsg
            → Sends s (sendmmsg answer wrote s).0 (sendmmsg answer wrote s).1)
        → let r : Sent = elim e [
          | normal ↦ send answer s
          | msg ↦ sendmsg answer s
          | mmsg ↦ sendmmsg answer wrote s
        ] in
          Sends s r.0 r.1
    go normal _ p q m = p
    go msg _ p q m = q
    go mmsg e p q m = m e
