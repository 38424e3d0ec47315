-- ===== src/Uring/Submit/SendPool.antt =====
-- `IoUringSend::submit` of src/io_uring/send.rs and the pool of free buffers.
use nperf.Base.{
  ℕ, zero, suc, ◌+◌, ◌≡◌, refl, ap, ap₂, ◌∙◌, Bool, Outcome, ok, err, fault, Option, some, bind_ok,
  ok_inj, [], sym, sub64, length, arith,
}
use nperf.Buffer.PacketBuffer.{
  PacketBuffer, add_packet_ids, stamp_buffers, limit_of, get_pool_inflight,
}
use nperf.Uring.Submit.{Submission, submit_send, push_messages}

add_packet_ids-pool :
    (id : ℕ) (n : Option ℕ) (b : PacketBuffer) (q : ℕ × PacketBuffer)
    → add_packet_ids id n b ≡ ok q
    → (q.1.index_pool ≡ b.index_pool) × (q.1.pool_capacity ≡ b.pool_capacity)
unfolding add_packet_ids
add_packet_ids-pool id n b q e =
    let (r, stamped, done) =
      bind_ok
        (stamp_buffers (limit_of n b) b.packets_amount_per_msghdr b.datagram_size id 0
          b.mmsghdr_vec)
        (λ r. ok (r.1, record b { mmsghdr_vec = r.0 })) q e in
    (
      ap (λ (x : ℕ × PacketBuffer). x.1.index_pool) (sym (ok_inj done)),
      ap (λ (x : ℕ × PacketBuffer). x.1.pool_capacity) (sym (ok_inj done)),
    )

module _ (accepts : ℕ → Bool) where
  pub push_messages-buffers :
      (n i next : ℕ) (b : PacketBuffer) → (push_messages accepts n i next b).buffers ≡ b
  unfolding push_messages
  push_messages-buffers zero i next b = refl
  push_messages-buffers (suc n) i next b = ground (arith, push_messages-buffers n (i + 1) next b)

  after_ids :
      (amount next : ℕ) (o : Outcome (ℕ × PacketBuffer)) (b : PacketBuffer)
      → ((q : ℕ × PacketBuffer)
          → o ≡ ok q
          → (q.1.index_pool ≡ b.index_pool) × (q.1.pool_capacity ≡ b.pool_capacity))
      → let r : Submission = elim o [
        | err e ↦ record { result = err e; buffers = b; entries = [] }
        | fault x ↦ record { result = fault x; buffers = b; entries = [] }
        | ok (used, b') ↦ push_messages accepts amount 0 next b'
      ] in
        (r.buffers.index_pool ≡ b.index_pool) × (r.buffers.pool_capacity ≡ b.pool_capacity)
  after_ids amount next (err e) b h = (refl, refl)
  after_ids amount next (fault x) b h = (refl, refl)
  after_ids amount next (ok (used, c)) b h = (
    ap (λ x. x.index_pool) (push_messages-buffers amount 0 next c) ∙ (h (used, c) refl).0,
    ap (λ x. x.pool_capacity) (push_messages-buffers amount 0 next c) ∙ (h (used, c) refl).1,
  )

  submit_send-pool :
      (amount next : ℕ) (b : PacketBuffer)
      → let r = submit_send accepts amount next b in
        (r.buffers.index_pool ≡ b.index_pool) × (r.buffers.pool_capacity ≡ b.pool_capacity)
  unfolding submit_send
  submit_send-pool amount next b =
      after_ids amount next (add_packet_ids next (some amount) b) b
        (add_packet_ids-pool next (some amount) b)

-- A flaw: however many requests `IoUringSend::submit` is asked for and however many of them it pushes,
-- the number of buffers in flight that `get_pool_inflight` reports stays the same.
pub submit_send-get_pool_inflight :
    (accepts : ℕ → Bool) (amount next : ℕ) (b : PacketBuffer)
    → get_pool_inflight (submit_send accepts amount next b).buffers ≡ get_pool_inflight b
unfolding get_pool_inflight
submit_send-get_pool_inflight accepts amount next b =
    let (pool, capacity) = submit_send-pool accepts amount next b in
    ap₂ sub64 capacity (ap length pool)
