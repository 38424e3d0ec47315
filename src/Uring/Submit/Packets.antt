-- ===== src/Uring/Submit/Packets.antt =====
-- A submission of src/io_uring/send.rs never changes the number of datagrams in a buffer.
use nperf.Base.{
  u32_mod, ◌%◌, ℕ, zero, suc, ◌+◌, ◌≡◌, refl, ap, ◌∙◌, inl, inr, Bool, Option, some, arith,
  Bool-cases, ok, add64, Outcome-cases,
}
use nperf.Config.{UringParameter}
use nperf.Statistic.{Statistic}
use nperf.Buffer.PacketBuffer.{
  PacketBuffer, add_packet_ids, add_packet_ids_to_msghdr, get_buffer_index, get_msghdr_from_index,
}
use nperf.Uring.{calc_sq_fill_mode}
use nperf.Uring.Submit.{
  RingAnswers, Submission, enter_filled, enter_and_record, is_nothing, submit_send, submit_zc,
  fill_sq_and_submit_send,
}
use nperf.Uring.Submit.SendPool.{push_messages-buffers}

-- The number of datagrams in a buffer is never changed.
get_buffer_index-packets :
    (b : PacketBuffer)
    → (get_buffer_index b).1.packets_amount_per_msghdr ≡ b.packets_amount_per_msghdr
unfolding get_buffer_index
get_buffer_index-packets b = ground arith

add_packet_ids-packets :
    (id : ℕ) (n : Option ℕ) (b : PacketBuffer) (q : ℕ × PacketBuffer)
    → add_packet_ids id n b ≡ ok q
    → q.1.packets_amount_per_msghdr ≡ b.packets_amount_per_msghdr
unfolding add_packet_ids
add_packet_ids-packets id n b q e = ground arith

add_packet_ids_to_msghdr-packets :
    (id i : ℕ) (b : PacketBuffer) (q : ℕ × PacketBuffer)
    → add_packet_ids_to_msghdr id i b ≡ ok q
    → q.1.packets_amount_per_msghdr ≡ b.packets_amount_per_msghdr
unfolding add_packet_ids_to_msghdr
add_packet_ids_to_msghdr-packets id i b q e = ground arith

module _ (accepts : ℕ → Bool) where
  submit_zc-packets :
      (n count amount next : ℕ) (b : PacketBuffer)
      → (submit_zc accepts n count amount next b).buffers.packets_amount_per_msghdr
        ≡ b.packets_amount_per_msghdr
  unfolding submit_zc
  submit_zc-packets zero count amount next b = refl
  submit_zc-packets (suc n) count amount next b =
      let b1 = (get_buffer_index b).1 in
      let one = get_buffer_index-packets b in
      elim (Outcome-cases (get_buffer_index b).0) [
        | inr (inl (e, q)) ↦ rw (q, submit_zc) one
        | inr (inr (x, q)) ↦ rw (q, submit_zc) one
        | inl (i, q) ↦ elim (Outcome-cases (add_packet_ids_to_msghdr (add64 next amount) i b1)) [
          | inr (inl (e, r)) ↦ rw (q, r, submit_zc) one
          | inr (inr (x, r)) ↦ rw (q, r, submit_zc) one
          | inl ((used, b2), r) ↦
              let two =
                add_packet_ids_to_msghdr-packets (add64 next amount) i b1 (used, b2) r ∙ one in
              elim (Outcome-cases (get_msghdr_from_index b2 i)) [
                | inr (inl (e, t)) ↦ rw (q, r, t, submit_zc) two
                | inr (inr (x, t)) ↦ rw (q, r, t, submit_zc) two
                | inl (h, t) ↦ elim (Bool-cases (accepts count)) [
                  | inr a ↦ rw (q, r, t, a, submit_zc) two
                  | inl a ↦
                      rw (q, r, t, a, submit_zc)
                        (submit_zc-packets n (count + 1) (add64 amount used) next b2 ∙ two)
                ]
              ]
        ]
      ]

  submit_send-packets :
      (n next : ℕ) (b : PacketBuffer)
      → (submit_send accepts n next b).buffers.packets_amount_per_msghdr
        ≡ b.packets_amount_per_msghdr
  unfolding submit_send
  submit_send-packets n next b = elim (Outcome-cases (add_packet_ids next (some n) b)) [
    | inr (inl (e, q)) ↦ rw (q, submit_send) refl
    | inr (inr (x, q)) ↦ rw (q, submit_send) refl
    | inl ((used, c), q) ↦
        rw (q, submit_send)
          (ap (λ (x : PacketBuffer). x.packets_amount_per_msghdr)
              (push_messages-buffers accepts n 0 next c)
            ∙ add_packet_ids-packets next (some n) b (used, c) q)
  ]

enter_filled-buffers :
    (a : RingAnswers) (n : ℕ) (s : Statistic) (r : Submission)
    → (enter_filled a n s r).buffers ≡ r.buffers
enter_filled-buffers a n s r = elim (Outcome-cases r.result) [
  | inr (inl (e, q)) ↦ rw (q, enter_filled) refl
  | inr (inr (x, q)) ↦ rw (q, enter_filled) refl
  | inl (m, q) ↦ elim (Outcome-cases (enter_and_record a n s)) [
    | inr (inl (e, t)) ↦ rw (q, t, enter_filled) refl
    | inr (inr (x, t)) ↦ rw (q, t, enter_filled) refl
    | inl (t', t) ↦ rw (q, t, enter_filled) refl
  ]
]

pub fill_sq_and_submit_send-packets :
    (accepts : ℕ → Bool) (a : RingAnswers) (p : UringParameter) (zc : Bool) (inflight next : ℕ)
    (b : PacketBuffer) (s : Statistic)
    → (fill_sq_and_submit_send accepts a p zc inflight next b s).buffers.packets_amount_per_msghdr
      ≡ b.packets_amount_per_msghdr
unfolding fill_sq_and_submit_send
fill_sq_and_submit_send-packets accepts a p zc inflight next b s =
    let plan = calc_sq_fill_mode (inflight % u32_mod) p a.view in
    let packets = λ (x : PacketBuffer). x.packets_amount_per_msghdr in
    elim (Bool-cases (is_nothing plan)) [
      | inl q ↦ rw (q, fill_sq_and_submit_send) refl
      | inr q ↦ elim (Bool-cases zc) [
        | inl z ↦
            rw (q, z, fill_sq_and_submit_send)
              (ap packets (enter_filled-buffers a plan.1 s _)
                ∙ submit_zc-packets accepts plan.0 0 0 next b)
        | inr z ↦
            rw (q, z, fill_sq_and_submit_send)
              (ap packets (enter_filled-buffers a plan.1 s _)
                ∙ submit_send-packets accepts plan.0 next b)
      ]
    ]
