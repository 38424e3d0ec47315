-- ===== src/Transfer/Handed.antt =====
-- What one call of `sendmmsg` of src/node/sender.rs hands to the kernel.
use nperf.Base.{
  ℕ, ◌+◌, ◌*◌, ◌^◌, ◌≤◌, ◌<◌, ◌≡◌, refl, ap, ◌∙◌, inl, inr, List, [], map, take, min, none, arith,
  length, length-take, length-map, sub64, add64, Outcome, ok, err, fault, Error, eagain,
}
use nperf.Config.{ExchangeFunction, normal, msg, mmsg, IoModel}
use nperf.Net.Header.{MessageType}
use nperf.Net.Socket
use nperf.Net.Socket.{Answer, returned, failed}
use nperf.Buffer.Msghdr.{Msghdr}
use nperf.Buffer.PacketBuffer.{PacketBuffer, Mmsghdr}
use nperf.Buffer.PacketBuffer.Ids.{AllFilled, add_packet_ids-Numbered}
use nperf.Node.Sender.{
  Sender, Sent, send, sendmsg, sendmmsg, send_messages, io_wait, not_sent, conclude_mmsg,
}
use nperf.Node.Sender.Ids.{datagrams, next_after}
use nperf.Node.Sender.Answers.{sendmmsg-Ends, sendmmsg_ok}
use nperf.Node.Sender.Frames.{KeepsHeaders, KeepsHeaders-length}
use nperf.Node.Sender.Run.{after_wait, after_send}
use nperf.Transfer.Ordered.{InOrder, Numbered-InOrder, InOrder-take}

-- What the kernel accepts of the messages of a call.
abbrev pub accepted : Answer → PacketBuffer → List Msghdr
accepted (returned n) b = take n (map (λ m. m.msg_hdr) b.mmsghdr_vec)
accepted (failed errno) b = []

after_wait-next :
    (o : Outcome (Unit {0})) (s : Sender)
    → ((after_wait o s).1.next_packet_id ≡ s.next_packet_id)
      × ((after_wait o s).1.packet_buffer ≡ s.packet_buffer)
after_wait-next (ok u) s = (refl, refl)
after_wait-next (err e) s = (refl, refl)
after_wait-next (fault x) s = (refl, refl)

pub after_send-next :
    (m : IoModel) (ready : Answer) (r : Sent)
    → ((after_send m ready r).1.next_packet_id ≡ r.1.next_packet_id)
      × ((after_send m ready r).1.packet_buffer ≡ r.1.packet_buffer)
after_send-next m ready (ok u, s) = (refl, refl)
after_send-next m ready (err eagain, s) = after_wait-next (io_wait m ready) _
after_send-next m ready (err _, s) = (refl, refl)
after_send-next m ready (fault x, s) = (refl, refl)

-- A failure that the loop goes on after is EAGAIN, which frees the ids.
not_sent-next :
    (m : IoModel) (ready : Answer) (a : ℕ) (e : Error) (s : Sender)
    → (after_send m ready (not_sent a e s)).0 ≡ ok tt
    → (not_sent a e s).1.next_packet_id ≡ sub64 s.next_packet_id a
not_sent-next m ready a eagain s h = refl
not_sent-next m ready a _ s h = cc

failed-next :
    (m : IoModel) (ready : Answer) (a errno : ℕ) (s : Sender)
    → (after_send m ready (conclude_mmsg a (Socket.sendmmsg (failed errno)) s)).0 ≡ ok tt
    → (conclude_mmsg a (Socket.sendmmsg (failed errno)) s).1.next_packet_id
      ≡ sub64 s.next_packet_id a
failed-next m ready a errno s h = elim (sendmmsg-Ends (failed errno)) [
  | inl (n, e) ↦ cc (sendmmsg_ok (failed errno) n e)
  | inr (x, e) ↦ rw e (not_sent-next m ready a x s (rw e at h))
]

-- What a call of `sendmmsg` hands over, and the next id after it unless it ends the loop.
abbrev pub Hands : ℕ → ℕ → MessageType → ℕ → IoModel → Answer → Answer → Sender → Sent → Type 0
Hands per size kind t m ready answer s r =
    InOrder per size kind t s.next_packet_id (accepted answer r.1.packet_buffer)
    × ((after_send m ready r).0 ≡ ok tt
        → r.1.next_packet_id ≡ s.next_packet_id + length (accepted answer r.1.packet_buffer) * per)

module _ (kind : MessageType) (t : ℕ) (m : IoModel) (ready : Answer)
    (wrote : List Mmsghdr → List Mmsghdr) (s : Sender) (keeps : KeepsHeaders wrote)
    (room : s.next_packet_id + datagrams s.packet_buffer < 2 ^ 64)
    (small : length s.packet_buffer.mmsghdr_vec < 2 ^ 64) where
  abbrev per_message : ℕ
  per_message = s.packet_buffer.packets_amount_per_msghdr

  -- The sender once the buffers are stamped and the kernel has written to them.
  abbrev ready_to_end : List Mmsghdr → Sender
  ready_to_end ms = record s {
    packet_buffer = record s.packet_buffer { mmsghdr_vec = wrote ms };
    next_packet_id = add64 s.next_packet_id (datagrams s.packet_buffer);
  }

  conclude_mmsg-Hands :
      (ms : List Mmsghdr)
      → InOrder per_message s.packet_buffer.datagram_size kind t s.next_packet_id
          (map (λ m. m.msg_hdr) ms)
      → length ms ≡ length s.packet_buffer.mmsghdr_vec
      → (answer : Answer) → ((n : ℕ) → answer ≡ returned n → n ≤ length s.packet_buffer.mmsghdr_vec)
      → Hands per_message s.packet_buffer.datagram_size kind t m ready answer s
          (conclude_mmsg (datagrams s.packet_buffer) (Socket.sendmmsg answer) (ready_to_end ms))
  unfolding Socket.sendmmsg
  conclude_mmsg-Hands ms ordered same (returned n) few =
      let l : length (wrote ms) ≡ length s.packet_buffer.mmsghdr_vec =
        KeepsHeaders-length wrote keeps ms ∙ same in
      let k : length (take n (map (λ (m : Mmsghdr). m.msg_hdr) (wrote ms))) ≡ n =
        length-take n (map (λ (m : Mmsghdr). m.msg_hdr) (wrote ms))
        ∙ omega (arith, few n refl, l, length-map (λ (m : Mmsghdr). m.msg_hdr) (wrote ms)) in
      (
        rw (keeps ms) (
            InOrder-take per_message s.packet_buffer.datagram_size kind t n s.next_packet_id _
              ordered),
        λ h.
            rw (l, k)
              (next_after s.next_packet_id (length s.packet_buffer.mmsghdr_vec) n per_message
                (few n refl) small room),
      )
  conclude_mmsg-Hands ms ordered same (failed errno) few = (
    tt,
    λ h. failed-next m ready (datagrams s.packet_buffer) errno (ready_to_end ms) h ∙ omega arith,
  )

  pub sendmmsg-Hands :
      (answer : Answer)
      → AllFilled per_message s.packet_buffer.datagram_size kind t s.packet_buffer.mmsghdr_vec
      → ((n : ℕ) → answer ≡ returned n → n ≤ length s.packet_buffer.mmsghdr_vec)
      → Hands per_message s.packet_buffer.datagram_size kind t m ready answer s
          (sendmmsg answer wrote s)
  unfolding sendmmsg
  sendmmsg-Hands answer filled few =
      let b = s.packet_buffer in
      let all : min (length b.mmsghdr_vec) (length b.mmsghdr_vec) * b.packets_amount_per_msghdr
          ≡ datagrams b =
        ap (λ x. x * b.packets_amount_per_msghdr) (omega arith) in
      let (ms, eq, _, nums, same) =
        add_packet_ids-Numbered kind t s.next_packet_id none b filled (rw all room) in
      rw (eq, all)
        (conclude_mmsg-Hands ms
          (Numbered-InOrder per_message b.datagram_size kind t (length b.mmsghdr_vec)
            s.next_packet_id ms (omega arith) nums)
          same answer few)

pub send_messages_mmsg :
    (answer : Answer) (wrote : List Mmsghdr → List Mmsghdr) (s : Sender)
    → s.exchange_function ≡ mmsg
    → send_messages answer wrote s ≡ sendmmsg answer wrote s
unfolding send_messages
send_messages_mmsg answer wrote s e =
    ap
      (λ (f : ExchangeFunction).
        let q : Sent = elim f [
          | normal ↦ send answer s
          | msg ↦ sendmsg answer s
          | mmsg ↦ sendmmsg answer wrote s
        ] in
        q)
      e
