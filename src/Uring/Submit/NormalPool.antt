-- ===== src/Uring/Submit/NormalPool.antt =====
-- `IoUringNormal::submit` and the pool: every index that is taken is pushed or given back.
use nperf.Base.{
  ℕ, zero, suc, ◌+◌, ◌≤◌, ◌<◌, ◌≡◌, ◌≢◌, refl, ap, sym, ◌∙◌, ◌⊎◌, inl, inr, Bool, true, false, List,
  [], ◌∷◌, arith, Bool-cases, length, get_elem?-some, ok, err, no_buffers_left, Error,
  io_uring_error, Option, none, some, ap₂, subst,
}
use nperf.Config.{UringParameter}
use nperf.Statistic.{Statistic}
use nperf.Buffer.Msghdr.{Msghdr}
use nperf.Buffer.PacketBuffer.{
  PacketBuffer, get_buffer_index, get_msghdr_from_index, return_buffer_index, get_pool_inflight,
}
use nperf.Buffer.PacketBuffer.Pool.{
  IsPool, get_buffer_index-IsPool, return_buffer_index-IsPool, free-lt, get_pool_inflight-IsPool,
  count-IsPool,
}
use nperf.Uring.{calc_sq_fill_mode, SubmitResult, submitted, os_error, enter_result, io_uring_enter}
use nperf.Uring.FillMode.{IsSizedRing, calc_sq_fill_mode_bounds}
use nperf.Uring.Submit.{
  Sqe, Submission, push_entry, submit_normal, fill_sq_and_submit_normal, RingAnswers, Filled,
  is_nothing, enter_filled, record_slot, uring_enter_timeout, enter_and_record,
}

-- The indices in flight once the entries are pushed.
abbrev pub launched : List Sqe → List ℕ → List ℕ
launched [] flying = flying
launched (e ∷ es) flying = launched es (e.user_data ∷ flying)

-- What a submission of at most `n` requests leaves, `count` of them being accepted before.
pub record Submits (n count size : ℕ) (flying : List ℕ) (accepts : ℕ → Bool) (r : Submission)
    : Type 0 where
  pub counted : r.result ≡ ok (count + length r.entries)
  pub within : length r.entries ≤ n
  pub stopped : (length r.entries ≡ n) ⊎ (accepts (count + length r.entries) ≡ false)
  pub pool : IsPool size (launched r.entries flying) r.buffers

message_of :
    (size i : ℕ) (flying : List ℕ) (b : PacketBuffer)
    → IsPool size flying b
    → i < size
    → (h : Msghdr) × (get_msghdr_from_index b i ≡ ok h)
unfolding get_msghdr_from_index
message_of size i flying b p l =
    let (m, e) = get_elem?-some b.mmsghdr_vec i (omega (arith, p.buffers)) in
    (m.msg_hdr, rw (e, get_msghdr_from_index))

module _ (grow : ℕ → ℕ → ℕ) (accepts : ℕ → Bool) where
  one_more :
      (n count size i : ℕ) (flying : List ℕ) (h : Msghdr) (r : Submission)
      → Submits n (count + 1) size (i ∷ flying) accepts r
      → Submits
          (suc n)
          count
          size
          flying
          accepts
          (push_entry (record { message = h; user_data = i }) r)
  one_more n count size i flying h r s = record {
    counted = s.counted ∙ ap ok (omega arith);
    within = omega (arith, s.within);
    stopped = elim s.stopped [
      | inl all ↦ inl (omega arith)
      | inr no_more ↦ inr (ap accepts (omega arith) ∙ no_more)
    ];
    pool = s.pool;
  }

  submit_normal_taken :
      (n count i : ℕ) (b c : PacketBuffer) (h : Msghdr)
      → get_buffer_index b ≡ (ok i, c)
      → get_msghdr_from_index c i ≡ ok h
      → accepts count ≡ true
      → submit_normal grow accepts (suc n) count b
        ≡ push_entry
            (record { message = h; user_data = i })
            (submit_normal grow accepts n (count + 1) c)
  unfolding submit_normal
  submit_normal_taken n count i b c h e g a = ground arith

  submit_normal_refused :
      (n count i : ℕ) (b c : PacketBuffer) (h : Msghdr)
      → get_buffer_index b ≡ (ok i, c)
      → get_msghdr_from_index c i ≡ ok h
      → accepts count ≡ false
      → submit_normal grow accepts (suc n) count b
        ≡ record { result = ok count; buffers = return_buffer_index grow (i ∷ []) c; entries = [] }
  unfolding submit_normal
  submit_normal_refused n count i b c h e g a = ground arith

  submit_normal-Submits :
      (n count size : ℕ) (flying : List ℕ) (b : PacketBuffer)
      → IsPool size flying b
      → n + length flying ≤ size
      → Submits n count size flying accepts (submit_normal grow accepts n count b)
  unfolding submit_normal
  submit_normal-Submits zero count size flying b p room = record {
    counted = ap ok (omega arith);
    within = omega arith;
    stopped = inl refl;
    pool = p;
  }
  submit_normal-Submits (suc n) count size flying b p room =
      elim (get_buffer_index-IsPool size flying b p) [
        | inl (full, _) ↦ absurd (omega arith)
        | inr (i, c, e, q, free, _) ↦
            let (h, g) =
              message_of size i (i ∷ flying) c q (free-lt size i c.index_pool flying b p free) in
            elim (Bool-cases (accepts count)) [
              | inl taken ↦
                  subst (Submits (suc n) count size flying accepts)
                    (sym (submit_normal_taken n count i b c h e g taken))
                    (one_more n count size i flying h _
                      (submit_normal-Submits n (count + 1) size (i ∷ flying) c q (omega arith)))
              | inr refused ↦
                  subst (Submits (suc n) count size flying accepts)
                    (sym (submit_normal_refused n count i b c h e g refused))
                    (record {
                      counted = ap ok (omega arith);
                      within = omega arith;
                      stopped = inr (ap accepts (omega arith) ∙ refused);
                      pool = return_buffer_index-IsPool grow size (i ∷ []) flying c q;
                    })
            ]
      ]

record_slot-err : (k : ℕ) (o : Option (List ℕ)) (e : Error) → record_slot k o ≢ err e
unfolding record_slot
record_slot-err k none e h = cc
record_slot-err k (some xs) e h = ground arith

enter_result-err : (x : SubmitResult) (e : Error) → enter_result x ≡ err e → e ≡ io_uring_error
unfolding enter_result
enter_result-err (submitted n) e h = cc
enter_result-err (os_error n) e h = ground arith

-- The kernel call can fail in one way only.
enter_and_record-err :
    (a : RingAnswers) (m : ℕ) (s : Statistic) (e : Error)
    → enter_and_record a m s ≡ err e
    → e ≡ io_uring_error
unfolding enter_and_record io_uring_enter
enter_and_record-err a m s e h = ground (
  arith,
  record_slot-err a.sq_len_after s.uring_sq_utilization e,
  record_slot-err a.cq_len_after s.uring_cq_utilization e,
  enter_result-err (a.submitter.submit_with_args m uring_enter_timeout) e,
)

-- What a pass over the ring leaves of the buffers.
pub record Fills (size : ℕ) (flying : List ℕ) (r : Filled) : Type 0 where
  pub pool : IsPool size (launched r.entries flying) r.buffers
  pub supplied : r.requests ≢ err no_buffers_left
  pub counted : (n : ℕ) → r.requests ≡ ok n → n ≡ length r.entries

enter_filled-parts :
    (a : RingAnswers) (m : ℕ) (s : Statistic) (r : Submission)
    → r.result ≡ ok (length r.entries)
    → let f = enter_filled a m s r in
      (f.buffers ≡ r.buffers)
      × (f.entries ≡ r.entries)
      × (f.requests ≢ err no_buffers_left)
      × ((n : ℕ) → f.requests ≡ ok n → n ≡ length r.entries)
enter_filled-parts a m s r h = (
  ground arith,
  ground arith,
  λ e. ground (arith, enter_and_record-err a m s no_buffers_left),
  λ n e. ground arith,
)

fill_normal_idle :
    (grow : ℕ → ℕ → ℕ) (accepts : ℕ → Bool) (a : RingAnswers) (p : UringParameter) (n : ℕ)
    (b : PacketBuffer) (s : Statistic)
    → is_nothing (calc_sq_fill_mode n p a.view) ≡ true
    → fill_sq_and_submit_normal grow accepts a p n b s
      ≡ record { requests = ok 0; buffers = b; statistic = s; entries = [] }
unfolding fill_sq_and_submit_normal
fill_normal_idle grow accepts a p n b s e = rw (e, fill_sq_and_submit_normal)

fill_normal_busy :
    (grow : ℕ → ℕ → ℕ) (accepts : ℕ → Bool) (a : RingAnswers) (p : UringParameter) (n : ℕ)
    (b : PacketBuffer) (s : Statistic)
    → let plan = calc_sq_fill_mode n p a.view in
      is_nothing plan ≡ false
      → fill_sq_and_submit_normal grow accepts a p n b s
        ≡ enter_filled a plan.1 s (submit_normal grow accepts plan.0 0 b)
unfolding fill_sq_and_submit_normal
fill_normal_busy grow accepts a p n b s e = rw (e, fill_sq_and_submit_normal)

-- One pass of the receiver's ring in the normal mode, over a ring of checked sizes with as many
-- buffers: every buffer stays either free or in flight, the pushed entries being the ones that are
-- now in flight; it never runs out of buffers, and on success it returns their number.
pub fill_sq_and_submit_normal-Fills :
    (grow : ℕ → ℕ → ℕ) (accepts : ℕ → Bool) (a : RingAnswers) (p : UringParameter) (flying : List ℕ)
    (b : PacketBuffer) (s : Statistic)
    → IsSizedRing p
    → IsPool p.buffer_size flying b
    → Fills p.buffer_size flying
        (fill_sq_and_submit_normal grow accepts a p (get_pool_inflight b) b s)
fill_sq_and_submit_normal-Fills grow accepts a p flying b s z q =
    let inflight = get_pool_inflight-IsPool p.buffer_size flying b q in
    let bounds =
      calc_sq_fill_mode_bounds (get_pool_inflight b) p a.view z
        (omega (arith, count-IsPool p.buffer_size flying b q)) in
    let plan = calc_sq_fill_mode (get_pool_inflight b) p a.view in
    let t =
      submit_normal-Submits grow accepts plan.0 0 p.buffer_size flying b q
        (omega (arith, count-IsPool p.buffer_size flying b q)) in
    elim (Bool-cases (is_nothing plan)) [
      | inl idle ↦
          subst (Fills p.buffer_size flying)
            (sym (fill_normal_idle grow accepts a p (get_pool_inflight b) b s idle))
            (record { pool = q; supplied = λ e. cc; counted = λ n e. ground arith })
      | inr busy ↦
          let (same, pushed, never, count) =
            enter_filled-parts a plan.1 s (submit_normal grow accepts plan.0 0 b)
              (t.counted ∙ ap ok (omega arith)) in
          subst (Fills p.buffer_size flying)
            (sym (fill_normal_busy grow accepts a p (get_pool_inflight b) b s busy))
            (record {
              pool =
                  subst {A = List Sqe × PacketBuffer}
                    (λ x. IsPool p.buffer_size (launched x.0 flying) x.1)
                    (sym (ap₂ (λ x y. (x, y)) pushed same)) t.pool;
              supplied = never;
              counted = λ n e. count n e ∙ ap length (sym pushed);
            })
    ]
