-- ===== src/Uring/Submit/ZeroCopyPool.antt =====
-- `IoUringSend::submit_zc` of src/io_uring/send.rs and the pool: which of the taken indices are pushed.
use nperf.Base.{
  ℕ, zero, suc, ◌+◌, ◌<◌, ◌≤◌, ◌≡◌, ◌≢◌, refl, ap, sym, ◌∙◌, inl, inr, Bool, false, arith,
  Bool-cases, List, [], ◌∷◌, ◌++◌, map, length, ok, add64, Outcome-cases, Outcome,
}
use nperf.Buffer.Msghdr.{Msghdr}
use nperf.Buffer.PacketBuffer.{
  PacketBuffer, add_packet_ids_to_msghdr, get_buffer_index, get_msghdr_from_index,
}
use nperf.Uring.Submit.{Sqe, Submission, push_entry, submit_zc}

get_buffer_index-index_pool :
    (b : PacketBuffer) (i : ℕ)
    → (get_buffer_index b).0 ≡ ok i
    → b.index_pool ≡ i ∷ (get_buffer_index b).1.index_pool
unfolding get_buffer_index
get_buffer_index-index_pool b i e = ground arith

-- Only an empty pool has no index.
get_buffer_index-none :
    (b : PacketBuffer)
    → ((i : ℕ) → (get_buffer_index b).0 ≢ ok i)
    → (get_buffer_index b).1.index_pool ≡ b.index_pool
unfolding get_buffer_index
get_buffer_index-none b h = go b.index_pool refl
  where
    go : (p : List ℕ) → b.index_pool ≡ p → (get_buffer_index b).1.index_pool ≡ b.index_pool
    go [] e = rw (e, get_buffer_index) e
    go (i ∷ rest) e = absurd (h i (rw (e, get_buffer_index) refl))

add_packet_ids_to_msghdr-index_pool :
    (id i : ℕ) (b : PacketBuffer) (q : ℕ × PacketBuffer)
    → add_packet_ids_to_msghdr id i b ≡ ok q
    → q.1.index_pool ≡ b.index_pool
unfolding add_packet_ids_to_msghdr
add_packet_ids_to_msghdr-index_pool id i b q e = ground arith

-- How a submission of `n` requests ends after `count` accepted ones, and which indices it loses.
pub data ZcEnd (n count : ℕ) (accepts : ℕ → Bool) (r : Submission) : List ℕ → Type 0 where
  all_pushed :
      r.result ≡ ok (count + length r.entries) → length r.entries ≡ n → ZcEnd n count accepts r []
  refused :
      (i : ℕ)
      → r.result ≡ ok (count + length r.entries)
      → length r.entries < n
      → accepts (count + length r.entries) ≡ false
      → ZcEnd n count accepts r (i ∷ [])
  failed :
      (lost : List ℕ) → ((k : ℕ) → r.result ≢ ok k) → length lost ≤ 1 → ZcEnd n count accepts r lost

-- The taken indices in their order: those of the entries, and the lost ones.
abbrev pub Takes : ℕ → ℕ → (ℕ → Bool) → PacketBuffer → Submission → Type 0
Takes n count accepts b r =
    (lost : List ℕ) × (b.index_pool
      ≡ map (λ (e : Sqe). e.user_data) r.entries ++ lost ++ r.buffers.index_pool)
    × ZcEnd n count accepts r lost

module _ (accepts : ℕ → Bool) where
  -- An index that is taken and lost.
  one_lost :
      (n count i : ℕ) (b c : PacketBuffer) (o : Outcome ℕ)
      → b.index_pool ≡ i ∷ c.index_pool
      → ((k : ℕ) → o ≢ ok k)
      → Takes n count accepts b (record { result = o; buffers = c; entries = [] })
  one_lost n count i b c o e h = (i ∷ [], e, failed (i ∷ []) h (omega arith))

  one_more :
      (n count i : ℕ) (h : Msghdr) (b c : PacketBuffer) (r : Submission)
      → b.index_pool ≡ i ∷ c.index_pool
      → Takes n (count + 1) accepts c r
      → Takes (suc n) count accepts b (push_entry (record { message = h; user_data = i }) r)
  one_more n count i h b c r e (lost, taken, end) =
      (lost, e ∙ ap (λ x. i ∷ x) taken, further lost end)
    where
      further :
          (lost : List ℕ)
          → ZcEnd n (count + 1) accepts r lost
          → ZcEnd (suc n) count accepts (push_entry (record { message = h; user_data = i }) r) lost
      further [] (all_pushed q l) = all_pushed (q ∙ ap ok (omega arith)) (omega arith)
      further _ (refused j q l a) =
          refused j (q ∙ ap ok (omega arith)) (omega arith) (ap accepts (omega arith) ∙ a)
      further lost (failed _ q l) = failed lost q l

  -- `IoUringSend::submit_zc`, from any of its passes on, takes indices from the pool in their order and pushes
  -- an entry for each but at most one: it pushes all the requests and loses no index; or the queue
  -- refuses an entry, and the index that was taken for it is lost although the call is a success (a flaw:
  -- `IoUringNormal::submit` gives it back); or an error ends it, with at most one index lost.
  pub submit_zc-Takes :
      (n count amount next : ℕ) (b : PacketBuffer)
      → Takes n count accepts b (submit_zc accepts n count amount next b)
  unfolding submit_zc
  submit_zc-Takes zero count amount next b =
      ([], refl, all_pushed (ap ok (omega arith)) (omega arith))
  submit_zc-Takes (suc n) count amount next b =
      let b1 = (get_buffer_index b).1 in
      elim (Outcome-cases (get_buffer_index b).0) [
        | inr (inl (e, q)) ↦
            rw (q, submit_zc)
              ([], sym (get_buffer_index-none b (λ i h. cc)), failed [] (λ k h. cc) (omega arith))
        | inr (inr (x, q)) ↦
            rw (q, submit_zc)
              ([], sym (get_buffer_index-none b (λ i h. cc)), failed [] (λ k h. cc) (omega arith))
        | inl (i, q) ↦
            let one = get_buffer_index-index_pool b i q in
            elim (Outcome-cases (add_packet_ids_to_msghdr (add64 next amount) i b1)) [
              | inr (inl (e, r)) ↦
                  rw (q, r, submit_zc) (one_lost (suc n) count i b b1 _ one (λ k h. cc))
              | inr (inr (x, r)) ↦
                  rw (q, r, submit_zc) (one_lost (suc n) count i b b1 _ one (λ k h. cc))
              | inl ((used, b2), r) ↦
                  let two =
                    one
                    ∙ ap (λ x. i ∷ x)
                        (sym (
                          add_packet_ids_to_msghdr-index_pool (add64 next amount) i b1 (used, b2)
                            r)) in
                  elim (Outcome-cases (get_msghdr_from_index b2 i)) [
                    | inr (inl (e, t)) ↦
                        rw (q, r, t, submit_zc) (one_lost (suc n) count i b b2 _ two (λ k h. cc))
                    | inr (inr (x, t)) ↦
                        rw (q, r, t, submit_zc) (one_lost (suc n) count i b b2 _ two (λ k h. cc))
                    | inl (h, t) ↦ elim (Bool-cases (accepts count)) [
                      | inr a ↦
                          rw (q, r, t, a, submit_zc)
                            (
                              i ∷ [],
                              two,
                              refused i (ap ok (omega arith)) (omega arith)
                                  (ap accepts (omega arith) ∙ a),
                            )
                      | inl a ↦
                          rw (q, r, t, a, submit_zc)
                            (one_more n count i h b b2 _ two
                              (submit_zc-Takes n (count + 1) (add64 amount used) next b2))
                    ]
                  ]
            ]
      ]
