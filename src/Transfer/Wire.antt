-- ===== src/Transfer/Wire.antt =====
-- The messages that the kernel accepts from the loop of `Sender::run` of src/node/sender.rs with sendmmsg.
use native.Mathlib.Nat.{add-mul}
use nperf.Base.{
  ℕ, ◌+◌, ◌*◌, ◌^◌, ◌<◌, ◌≡◌, refl, ap, ap₂, sym, subst, ◌∙◌, ◌⊎◌, inl, inr, List, [], ◌∷◌, ◌++◌,
  Option, some, arith, length, length-append, leb, if◌then◌else◌, Bool-cases, Outcome, ok, err,
  fault, Error,
}
use nperf.Config.{mmsg, IoModel}
use nperf.Config.Floats.{Floats}
use nperf.Net.Header.{MessageType}
use nperf.Net.Socket.{Answer}
use nperf.Buffer.Msghdr.{Msghdr}
use nperf.Buffer.PacketBuffer.Ids.{AllFilled}
use nperf.Node.Interval.{as_secs, elapsed}
use nperf.Node.Sender.{Sender, Sent, sendmmsg, send_messages}
use nperf.Node.Sender.Ids.{datagrams}
use nperf.Node.Sender.Run.{Round, after_send, check_interval, send_round, send_loop}
use nperf.Node.Sender.Run.Accounts.{Kernel, Kernels, check_interval-Checked}
use nperf.Node.Sender.Run.Passes.{
  IsSending, Passes, goes, stops, send_messages-Passes, check_interval-IsSending,
}
use nperf.Transfer.Ordered.{InOrder, InOrder-append}
use nperf.Transfer.Handed.{accepted, Hands, sendmmsg-Hands, send_messages_mmsg, after_send-next}

module _ (fl : Floats) where
  -- All that it accepts from the passes of the loop.
  unfoldable pub on_wire : IoModel → ℕ → List Round → Sender → List Msghdr
  on_wire m start [] s = []
  on_wire m start (r ∷ rs) s =
      let t = send_round fl m r s in
      let rest = on_wire m start rs t.1 in
      if leb s.run_time_length (as_secs (elapsed start r.clocks.test))
      then []
      else accepted r.answer t.1.packet_buffer
        ++ elim t.0 [ ok u ↦ rest | err e ↦ [] | fault x ↦ [] ]

module _ (fl : Floats) (kind : MessageType) (t count per size : ℕ) where
  send_messages-Hands :
      (m : IoModel) (r : Round) (used : ℕ) (s : Sender)
      → IsSending fl kind t count mmsg per size used s
      → used + count * per < 2 ^ 64
      → Kernel count mmsg r
      → Hands per size kind t m r.ready r.answer s (send_messages r.answer r.wrote s)
  send_messages-Hands m r used s h room (keeps, few) =
      let l = h.loaded in
      let b = s.packet_buffer in
      let amount : datagrams b ≡ count * per = ap₂ (λ a b. a * b) l.buffers l.packets in
      let filled =
        subst (λ a. AllFilled a b.datagram_size kind t b.mmsghdr_vec) (sym l.packets)
          (subst (λ d. AllFilled per d kind t b.mmsghdr_vec) (sym l.sizes) l.filled) in
      let hands =
        sendmmsg-Hands kind t m r.ready r.wrote s keeps (omega (arith, h.ids))
          (omega (arith, l.buffers, l.few)) r.answer filled
          (λ n a. omega (arith, few n refl a, l.buffers)) in
      subst (λ q. Hands per size kind t m r.ready r.answer s q)
        (sym (send_messages_mmsg r.answer r.wrote s l.function))
        (subst (λ p. Hands p size kind t m r.ready r.answer s (sendmmsg r.answer r.wrote s))
          l.packets
          (subst
            (λ d.
              Hands b.packets_amount_per_msghdr d kind t m r.ready r.answer s
                (sendmmsg r.answer r.wrote s))
            l.sizes hands))

  -- What a pass hands over, from its result.
  abbrev Passed : Answer → ℕ → Sent → Type 0
  Passed answer next q =
      InOrder per size kind t next (accepted answer q.1.packet_buffer)
      × (q.0 ≡ ok tt → q.1.next_packet_id ≡ next + length (accepted answer q.1.packet_buffer) * per)

  after_send-Passed :
      (m : IoModel) (ready answer : Answer) (s : Sender) (y : Sent)
      → Hands per size kind t m ready answer s y
      → Passed answer s.next_packet_id (after_send m ready y)
  after_send-Passed m ready answer s y (ordered, next) =
      let (same, buffers) = after_send-next m ready y in
      (
        rw buffers ordered,
        λ h.
            same
            ∙ next h
            ∙ ap (λ b. s.next_packet_id + length (accepted answer b) * per) (sym buffers),
      )

  send_round-Passed :
      (m : IoModel) (r : Round) (used : ℕ) (s : Sender)
      → IsSending fl kind t count mmsg per size used s
      → used + count * per < 2 ^ 64
      → Kernel count mmsg r
      → Passed r.answer s.next_packet_id (send_round fl m r s)
  unfolding send_round
  send_round-Passed m r used s h room k =
      let x = check_interval fl r.clocks s in
      let h' = check_interval-IsSending fl kind t count mmsg per size r.clocks used s h in
      subst (λ next. Passed r.answer next (after_send m r.ready (send_messages r.answer r.wrote x)))
        (ap (λ (x : Sender). x.next_packet_id) (check_interval-Checked fl r.clocks s))
        (after_send-Passed m r.ready r.answer x _ (send_messages-Hands m r used x h' room k))

  -- The next id after the loop, unless an error ended it.
  abbrev pub EndsAt : ℕ → Option (Outcome (Unit {0})) × Sender → Type 0
  EndsAt next q = (q.1.next_packet_id ≡ next) ⊎ ((e : Error) × (q.0 ≡ some (err e)))

  -- A sender with mmsg that is ready, with filled buffers, runs its loop over passes with fewer than
  -- 2^64 ids in all, on a kernel that keeps the headers and takes at most the messages it is given.
  -- Whatever part of each call the kernel accepts, the datagrams that it accepts over all passes
  -- carry the type, the test and the ids from the next id of the sender on, without a gap, in the
  -- order of their acceptance, and at the end the next id is the first that the kernel did not
  -- accept, unless an error ended the loop.
  pub on_wire-InOrder :
      (m : IoModel) (start used : ℕ) (rs : List Round) (s : Sender)
      → IsSending fl kind t count mmsg per size used s
      → used + length rs * (count * per) < 2 ^ 64
      → Kernels count mmsg rs
      → let wire = on_wire fl m start rs s in
        InOrder per size kind t s.next_packet_id wire
        × EndsAt (s.next_packet_id + length wire * per) (send_loop fl m start rs s)
  unfolding on_wire send_loop
  on_wire-InOrder m start used [] s h room k = (tt, inl (omega arith))
  on_wire-InOrder m start used (r ∷ rs) s h room (k, ks) =
      elim (Bool-cases (leb s.run_time_length (as_secs (elapsed start r.clocks.test)))) [
        | inl b ↦ rw (b, on_wire, send_loop) (tt, inl (omega arith))
        | inr b ↦
            rw (b, on_wire, send_loop)
              (after _ _
                (send_messages-Passes fl kind t count mmsg per size m r used
                  (check_interval fl r.clocks s)
                  (check_interval-IsSending fl kind t count mmsg per size r.clocks used s h)
                  (omega arith) k)
                (send_round-Passed m r used s h (omega arith) k)
                (λ x h'. on_wire-InOrder m start (used + count * per) rs x h' (omega arith) ks))
      ]
    where
      after :
          (o : Outcome (Unit {0})) (x : Sender)
          → Passes fl kind t count mmsg per size used o x
          → Passed r.answer s.next_packet_id (o, x)
          → ((x : Sender)
              → IsSending fl kind t count mmsg per size (used + count * per) x
              → let wire = on_wire fl m start rs x in
                InOrder per size kind t x.next_packet_id wire
                × EndsAt (x.next_packet_id + length wire * per) (send_loop fl m start rs x))
          → let rest : List Msghdr = elim o [
            | ok u ↦ on_wire fl m start rs x
            | err e ↦ []
            | fault z ↦ []
          ] in
            let q : Option (Outcome (Unit {0})) × Sender = elim o [
              | ok u ↦ send_loop fl m start rs x
              | err e ↦ (some (err e), x)
              | fault z ↦ (some (fault z), x)
            ] in
            let wire = accepted r.answer x.packet_buffer ++ rest in
            InOrder per size kind t s.next_packet_id wire
            × EndsAt (s.next_packet_id + length wire * per) q
      after o x (goes y h') (ordered, next) more =
          let (later, end) = more y h' in
          let now = accepted r.answer y.packet_buffer in
          let wire = on_wire fl m start rs y in
          let l : length (now ++ wire) * per ≡ length now * per + length wire * per =
            ap (λ n. n * per) (length-append now wire) ∙ add-mul (length now) (length wire) per in
          let e : y.next_packet_id + length wire * per
              ≡ s.next_packet_id + length (now ++ wire) * per =
            omega (arith, l, next refl) in
          (
            InOrder-append per size kind t s.next_packet_id now wire ordered
                (subst (λ n. InOrder per size kind t n wire) (next refl) later),
            subst (λ n. EndsAt n (send_loop fl m start rs y)) e end,
          )
      after o x (stops z y) (ordered, next) more = (
        InOrder-append per size kind t s.next_packet_id (accepted r.answer y.packet_buffer) []
            ordered tt,
        inr (z, refl),
      )
