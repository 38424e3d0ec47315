-- ===== src/Node/Sender/Run/Settling.antt =====
-- The packet ids of a pass of `io_uring_loop` of `Sender` in src/node/sender.rs: each is counted or
-- still in flight.
use nperf.Base.{
  ℕ, ◌+◌, ◌-◌, ◌*◌, ◌^◌, ◌≤◌, ◌<◌, ◌≡◌, refl, ap, sym, subst, ◌∙◌, inl, inr, Bool, true, false,
  List, [], ◌∷◌, arith, if◌then◌else◌, Outcome, ok, err, fault, eagain, Outcome-cases,
}
use native.Mathlib.Nat.{add-mul}
use nperf.Config.Floats.{zero_f64, Floats}
use nperf.Buffer.PacketBuffer.{return_buffer_index, get_pool_inflight}
use nperf.Uring.Submit.Packets.{fill_sq_and_submit_send-packets}
use nperf.Uring.Submit.{Filled}
use nperf.Node.Receiver.Completion.{Cqe}
use nperf.Node.Sender.{
  Sender, complete_send, complete_send_zc, io_uring_complete_send, io_uring_complete_send_zc,
}
use nperf.Node.Sender.Requests.{
  firsts, tally, Tallies, Tallies-ok, Tallies-err, complete_send-Tallies, complete_send_zc-Tallies,
}
use nperf.Node.Sender.Run.{check_interval}
use nperf.Node.Sender.Run.Uring.{
  UringRound, UringSender, UringSent, record_inflight, after_complete, filled_sender,
  count_submitted, uring_complete, after_fill, fill, fill_and_complete, uring_round,
}

-- A sender without intervals, whose ids are all counted but for those of `pending` requests of `per`
-- datagrams each.
pub record Settled (fl : Floats) (per pending : ℕ) (u : UringSender) : Type 0 where
  pub packets : u.sender.packet_buffer.packets_amount_per_msghdr ≡ per
  pub bare : fl.feq u.sender.statistic_interval.output_interval zero_f64 ≡ true
  pub settled : tally u.sender.statistic + pending * per ≡ u.sender.next_packet_id

module _ (more notif : ℕ → Bool) (grow : ℕ → ℕ → ℕ) (fl : Floats) where
  -- The state in which a pass submits.
  abbrev pub entered : UringRound → UringSender → UringSender
  entered r u = elim (record_inflight u) [
    | err e ↦ u
    | fault x ↦ u
    | ok s ↦ record u { sender = check_interval fl r.clocks s }
  ]

  -- The requests that a pass submits.
  abbrev pub number_of : Outcome ℕ → ℕ
  number_of (ok n) = n
  number_of (err e) = 0
  number_of (fault x) = 0

  abbrev pub new_requests : UringRound → UringSender → ℕ
  new_requests r u = number_of (fill more notif grow fl r (entered r u)).requests

  -- The kernel completes only what was submitted, and the ids stay below 2^64.
  abbrev pub Sound : ℕ → ℕ → UringRound → UringSender → Type 0
  Sound per pending r u =
      (firsts u.is_zc r.cqes ≤ pending + new_requests r u)
      × (u.sender.next_packet_id + new_requests r u * per < 2 ^ 64)

  abbrev pub left_over : ℕ → UringRound → UringSender → ℕ
  left_over pending r u = pending + new_requests r u - firsts u.is_zc r.cqes

  abbrev pub Sounds : ℕ → ℕ → List UringRound → UringSender → Type 0
  Sounds per pending [] u = Unit {0}
  Sounds per pending (r ∷ rs) u =
      Sound per pending r u
      × Sounds per (left_over pending r u) rs (uring_round more notif grow fl r u).1

  -- What a pass leaves, unless it ends the run.
  abbrev pub RoundSettles : ℕ → ℕ → UringSent → Type 0
  RoundSettles per pending (ok u, v) = Settled fl per pending v
  RoundSettles per pending (err e, v) = Unit {0}
  RoundSettles per pending (fault x, v) = Unit {0}

  split : (a b per : ℕ) → b ≤ a → a * per ≡ (a - b) * per + b * per
  split a b per l =
      let e : a ≡ a - b + b = omega arith in ap (λ (x : ℕ). x * per) e ∙ add-mul (a - b) b per

  after_complete-Settled :
      (per q target : ℕ) (o : Outcome ℕ) (s : Sender) (u : UringSender)
      → s.packet_buffer.packets_amount_per_msghdr ≡ per
      → fl.feq s.statistic_interval.output_interval zero_f64 ≡ true
      → target + q * per ≡ s.next_packet_id
      → Tallies target (o, s.statistic)
      → RoundSettles per q (after_complete (o, s) u)
  after_complete-Settled per q target (ok k) s u packets bare total t = record {
    packets = packets;
    bare = bare;
    settled = omega (arith, t, total);
  }
  after_complete-Settled per q target (err eagain) s u packets bare total t = absurd t
  after_complete-Settled per q target (err e) s u packets bare total t = tt
  after_complete-Settled per q target (fault x) s u packets bare total t = tt

  completed-Settled :
      (zc : Bool) (per pending : ℕ) (cqes : List Cqe) (u : UringSender)
      → Settled fl per pending u
      → firsts zc cqes ≤ pending
      → u.sender.next_packet_id < 2 ^ 64
      → RoundSettles per (pending - firsts zc cqes) (
          after_complete
            (if zc
              then io_uring_complete_send_zc more notif grow cqes u.sender
              else io_uring_complete_send cqes u.sender)
            u)
  unfolding io_uring_complete_send io_uring_complete_send_zc return_buffer_index
  completed-Settled false per pending cqes u h few small =
      let target = tally u.sender.statistic + firsts false cqes * per in
      let t =
        subst (λ amount. Tallies target (complete_send amount cqes 0 u.sender.statistic))
          (sym h.packets)
          (complete_send-Tallies per target cqes 0 u.sender.statistic refl
            (omega (arith, h.settled, split pending (firsts false cqes) per few))) in
      after_complete-Settled per (pending - firsts false cqes) target _ _ u h.packets h.bare
        (omega (arith, h.settled, split pending (firsts false cqes) per few)) t
  completed-Settled true per pending cqes u h few small =
      let target = tally u.sender.statistic + firsts true cqes * per in
      let t =
        subst
          (λ amount.
            Tallies target (complete_send_zc more notif amount cqes 0 [] u.sender.statistic))
          (sym h.packets)
          (complete_send_zc-Tallies more notif per target cqes 0 [] u.sender.statistic refl
            (omega (arith, h.settled, split pending (firsts true cqes) per few))) in
      elim (Outcome-cases
        (complete_send_zc more notif u.sender.packet_buffer.packets_amount_per_msghdr cqes 0 []
          u.sender.statistic).0) [
            | inl (k, q) ↦
                rw (q, io_uring_complete_send_zc)
                  (record {
                    packets = h.packets;
                    bare = h.bare;
                    settled = omega (
                      arith,
                      Tallies-ok target _ k t q,
                      h.settled,
                      split pending (firsts true cqes) per few,
                    );
                  })
            | inr (inl (e, q)) ↦
                rw (q, io_uring_complete_send_zc)
                  (after_complete-Settled per (pending - firsts true cqes) target (err e) _ u
                    h.packets h.bare
                    (omega (arith, h.settled, split pending (firsts true cqes) per few))
                    (Tallies-err target _ e t q))
            | inr (inr (x, q)) ↦ rw (q, io_uring_complete_send_zc) tt
          ]

  -- A submission gives out the ids of its requests.
  submitted-Settled :
      (per pending n : ℕ) (f : Filled) (u : UringSender)
      → Settled fl per pending u
      → f.buffers.packets_amount_per_msghdr ≡ u.sender.packet_buffer.packets_amount_per_msghdr
      → u.sender.next_packet_id + n * per < 2 ^ 64
      → let v = count_submitted n (filled_sender f u) in
        Settled fl per (pending + n) v × (v.sender.next_packet_id < 2 ^ 64)
  submitted-Settled per pending n f u h same small =
      let e : n * f.buffers.packets_amount_per_msghdr ≡ n * per =
        ap (λ x. n * x) (same ∙ h.packets) in
      (
        record {
          packets = same ∙ h.packets;
          bare = h.bare;
          settled = omega (arith, h.settled, add-mul pending n per, e, small);
        },
        omega (arith, e, small),
      )

  pub fill_and_complete-Settled :
      (per pending : ℕ) (r : UringRound) (u : UringSender)
      → Settled fl per pending u
      → let n = number_of (fill more notif grow fl r u).requests in
        firsts u.is_zc r.cqes ≤ pending + n
        → u.sender.next_packet_id + n * per < 2 ^ 64
        → RoundSettles per
            (pending + n - firsts u.is_zc r.cqes)
            (fill_and_complete more notif grow fl r u)
  unfolding uring_complete
  fill_and_complete-Settled per pending r u h few small =
      elim (Outcome-cases (fill more notif grow fl r u).requests) [
        | inr (inl (e, q)) ↦ rw (q, after_fill) tt
        | inr (inr (x, q)) ↦ rw (q, after_fill) tt
        | inl (n, q) ↦
            let f = fill more notif grow fl r u in
            let (done, room) =
              submitted-Settled per pending n f u h
                (fill_sq_and_submit_send-packets r.accepts r.ring u.sender.parameter.uring_parameter
                  u.is_zc (get_pool_inflight u.sender.packet_buffer) u.sender.next_packet_id
                  u.sender.packet_buffer u.ring_statistic)
                (rw q at small) in
            rw (q, after_fill)
              (completed-Settled u.is_zc per (pending + n) r.cqes
                (count_submitted n (filled_sender f u)) done (rw q at few) room)
      ]
