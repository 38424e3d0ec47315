-- ===== src/Node/Sender/Frames.antt =====
-- What a sending call of src/node/sender.rs leaves alone: all of the sender but the next id and the
-- counters, and of the buffers all but the ids in them.
use nperf.Base.{
  ℕ, ◌+◌, ◌*◌, ◌^◌, ◌<◌, ◌≡◌, refl, ap, sym, ◌∙◌, List, [], ◌∷◌, arith, length, length-map, map,
  min, none, Outcome, ok, err, fault, Error, eagain, subst,
}
use nperf.Config.{normal, msg, mmsg}
use nperf.Net.Header.{MessageType}
use nperf.Net.Socket.{Answer}
use nperf.Buffer.PacketBuffer.{PacketBuffer, Mmsghdr, add_packet_ids}
use nperf.Buffer.PacketBuffer.Ids.{IsFilled, AllFilled, add_packet_ids-Numbered}
use nperf.Node.Sender.{
  Sender, Sent, send, sendmsg, sendmmsg, send_messages, conclude, conclude_mmsg, not_sent,
}
use nperf.Node.Sender.Ids.{datagrams}

-- `x` is `s` with these buffers, and its own next id and statistic.
abbrev pub Framed : Sender → PacketBuffer → Sender → Type 0
Framed s b x =
    x ≡ record s { packet_buffer = b; next_packet_id = x.next_packet_id; statistic = x.statistic }

not_sent-Framed : (a : ℕ) (e : Error) (s : Sender) → Framed s s.packet_buffer (not_sent a e s).1
not_sent-Framed a eagain s = refl
not_sent-Framed a _ s = refl

conclude-Framed : (a : ℕ) (o : Outcome ℕ) (s : Sender) → Framed s s.packet_buffer (conclude a o s).1
conclude-Framed a (ok n) s = refl
conclude-Framed a (err e) s = not_sent-Framed a e s
conclude-Framed a (fault x) s = refl

conclude_mmsg-Framed :
    (a : ℕ) (o : Outcome ℕ) (s : Sender) → Framed s s.packet_buffer (conclude_mmsg a o s).1
conclude_mmsg-Framed a (ok n) s = refl
conclude_mmsg-Framed a (err e) s = not_sent-Framed a e s
conclude_mmsg-Framed a (fault x) s = refl

-- The kernel writes the lengths of the messages of a call, and not their headers.
abbrev pub KeepsHeaders : (List Mmsghdr → List Mmsghdr) → Type 0
KeepsHeaders wrote = (xs : List Mmsghdr) → map (λ m. m.msg_hdr) (wrote xs) ≡ map (λ m. m.msg_hdr) xs

pub KeepsHeaders-length :
    (wrote : List Mmsghdr → List Mmsghdr)
    → KeepsHeaders wrote
    → (xs : List Mmsghdr) → length (wrote xs) ≡ length xs
KeepsHeaders-length wrote k xs =
    sym (length-map (λ m. m.msg_hdr) (wrote xs)) ∙ ap length (k xs) ∙ length-map (λ m. m.msg_hdr) xs

AllFilled-map :
    (n d : ℕ) (kind : MessageType) (t : ℕ) (xs ys : List Mmsghdr)
    → map (λ m. m.msg_hdr) ys ≡ map (λ m. m.msg_hdr) xs
    → AllFilled n d kind t xs
    → AllFilled n d kind t ys
AllFilled-map n d kind t [] [] e f = tt
AllFilled-map n d kind t [] (y ∷ ys) e f = cc
AllFilled-map n d kind t (x ∷ xs) [] e f = cc
AllFilled-map n d kind t (x ∷ xs) (y ∷ ys) e f =
    let h : x.msg_hdr ≡ y.msg_hdr = cc in
    (subst (IsFilled n d kind t) h f.0, AllFilled-map n d kind t xs ys (cc) f.1)

-- The sender after a call: other messages, but as many, and with a header in every datagram.
pub record Frames (kind : MessageType) (t : ℕ) (s x : Sender) : Type 0 where
  pub messages : List Mmsghdr
  pub only : Framed s (record s.packet_buffer { mmsghdr_vec = messages }) x
  pub as_many : length messages ≡ length s.packet_buffer.mmsghdr_vec
  pub filled :
      AllFilled s.packet_buffer.packets_amount_per_msghdr s.packet_buffer.datagram_size kind t
        messages

module _ (s : Sender) (answer : Answer) (ms : List Mmsghdr)
    (ids : add_packet_ids s.next_packet_id none s.packet_buffer
      ≡ ok (datagrams s.packet_buffer, record s.packet_buffer { mmsghdr_vec = ms })) where
  send-Framed : Framed s (record s.packet_buffer { mmsghdr_vec = ms }) (send answer s).1
  unfolding send
  send-Framed = rw ids (conclude-Framed _ _ _)

  sendmsg-Framed : Framed s (record s.packet_buffer { mmsghdr_vec = ms }) (sendmsg answer s).1
  unfolding sendmsg
  sendmsg-Framed = rw ids (conclude-Framed _ _ _)

  sendmmsg-Framed :
      (wrote : List Mmsghdr → List Mmsghdr)
      → Framed s (record s.packet_buffer { mmsghdr_vec = wrote ms }) (sendmmsg answer wrote s).1
  unfolding sendmmsg
  sendmmsg-Framed wrote = rw ids (conclude_mmsg-Framed _ _ _)

-- Whatever the result, a call of `send_messages` leaves as many buffers as there were, each datagram of them with a header
-- of the same type and test, and changes nothing else of the sender but the next id and the
-- statistic. The ids stay below 2^64, and the kernel leaves the message headers alone.
pub send_messages-Frames :
    (kind : MessageType) (t : ℕ) (answer : Answer) (wrote : List Mmsghdr → List Mmsghdr)
    (s : Sender)
    → AllFilled s.packet_buffer.packets_amount_per_msghdr s.packet_buffer.datagram_size kind t
        s.packet_buffer.mmsghdr_vec
    → s.next_packet_id + datagrams s.packet_buffer < 2 ^ 64
    → KeepsHeaders wrote
    → Frames kind t s (send_messages answer wrote s).1
unfolding send_messages
send_messages-Frames kind t answer wrote s f i keeps =
    let b = s.packet_buffer in
    let all : min (length b.mmsghdr_vec) (length b.mmsghdr_vec) * b.packets_amount_per_msghdr
        ≡ datagrams b =
      ap (λ x. x * b.packets_amount_per_msghdr) (omega arith) in
    let (ms, eq, f', nums, same) =
      add_packet_ids-Numbered kind t s.next_packet_id none b f (rw all i) in
    let ids = eq ∙ ap (λ x. ok (x, record b { mmsghdr_vec = ms })) all in
    let plain : (x : Sender) → Framed s (record b { mmsghdr_vec = ms }) x → Frames kind t s x =
      λ x e. record { messages = ms; only = e; as_many = same; filled = f' } in
    elim s.exchange_function
      as (λ e.
        Frames kind t s
          (elim e as (λ _. Sent) [
            | normal ↦ send answer s
            | msg ↦ sendmsg answer s
            | mmsg ↦ sendmmsg answer wrote s
          ]).1) [
            | normal ↦ plain _ (send-Framed s answer ms ids)
            | msg ↦ plain _ (sendmsg-Framed s answer ms ids)
            | mmsg ↦ record {
              messages = wrote ms;
              only = sendmmsg-Framed s answer ms ids wrote;
              as_many = KeepsHeaders-length wrote keeps ms ∙ same;
              filled = AllFilled-map _ _ kind t ms (wrote ms) (keeps ms) f';
            }
          ]
