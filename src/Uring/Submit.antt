-- ===== src/Uring/Submit.antt =====
-- The submission of requests: src/io_uring/normal.rs, send.rs, provided_buffer.rs, multishot.rs.
-- `accepts k` says whether the ring takes the k-th entry that is pushed in a call.
use nperf.Base.{
  u32_mod, ◌%◌, ℕ, zero, suc, ◌+◌, ◌-◌, ◌*◌, ◌%◌, Bool, true, false, List, [], ◌∷◌, Option, none,
  some, add64, add32, mul64, if◌then◌else◌, get_elem?, set, length, ltb, Outcome, ok, err, Error,
  fault, Fault, panicked, ◌>>=◌, io_uring_error,
}
use nperf.Config.{Parameter, UringParameter}
use nperf.Buffer.Msghdr.{Msghdr}
use nperf.Buffer.PacketBuffer.{
  PacketBuffer, get_buffer_index, get_msghdr_from_index, return_buffer_index, add_packet_ids,
  add_packet_ids_to_msghdr,
}
use nperf.Statistic.{Statistic}
use nperf.Uring.{RingView, calc_sq_fill_mode, Submitter, io_uring_enter}
pub mod NormalPool
pub mod SendPool
pub mod ZeroCopyPool
pub mod Packets

-- An entry of the submission queue: its message and its user data.
pub record Sqe : Type 0 where
  pub message : Msghdr
  pub user_data : ℕ

-- What a submission leaves: its result, the buffers, and the entries pushed.
pub record Submission : Type 0 where
  pub result : Outcome ℕ
  pub buffers : PacketBuffer
  pub entries : List Sqe

abbrev push_entry : Sqe → Submission → Submission
push_entry e s = record s { entries = e ∷ s.entries }

module _ (grow : ℕ → ℕ → ℕ) (accepts : ℕ → Bool) where
  -- IoUringNormal::submit, for `n` more requests after `count` accepted ones.
  unfoldable pub submit_normal : ℕ → ℕ → PacketBuffer → Submission
  submit_normal zero count b = record { result = ok count; buffers = b; entries = [] }
  submit_normal (suc n) count b =
      let (index, b') = get_buffer_index b in
      elim index [
        | err e ↦ record { result = err e; buffers = b'; entries = [] }
        | fault x ↦ record { result = fault x; buffers = b'; entries = [] }
        | ok i ↦ elim (get_msghdr_from_index b' i) [
          | err e ↦ record { result = err e; buffers = b'; entries = [] }
          | fault x ↦ record { result = fault x; buffers = b'; entries = [] }
          | ok h ↦ elim (accepts count) [
            | true ↦
                push_entry (record { message = h; user_data = i }) (submit_normal n (count + 1) b')
            | false ↦ record {
              result = ok count;
              buffers = return_buffer_index grow (i ∷ []) b';
              entries = [];
            }
          ]
        ]
      ]

module _ (accepts : ℕ → Bool) where
  -- The loop of IoUringSend::submit: request `i` uses buffer `i`.
  unfoldable pub push_messages : ℕ → ℕ → ℕ → PacketBuffer → Submission
  push_messages zero i next_packet_id b = record { result = ok i; buffers = b; entries = [] }
  push_messages (suc n) i next_packet_id b = elim (get_msghdr_from_index b i) [
    | err e ↦ record { result = err e; buffers = b; entries = [] }
    | fault x ↦ record { result = fault x; buffers = b; entries = [] }
    | ok h ↦ elim (accepts i) [
      | true ↦
          push_entry
            (record {
              message = h;
              user_data = add64 next_packet_id (mul64 i b.packets_amount_per_msghdr);
            })
            (push_messages n (i + 1) next_packet_id b)
      | false ↦ record { result = ok i; buffers = b; entries = [] }
    ]
  ]

  -- IoUringSend::submit
  unfoldable pub submit_send : ℕ → ℕ → PacketBuffer → Submission
  unfolding push_messages
  submit_send amount_requests next_packet_id b =
      elim (add_packet_ids next_packet_id (some amount_requests) b) [
        | err e ↦ record { result = err e; buffers = b; entries = [] }
        | fault x ↦ record { result = fault x; buffers = b; entries = [] }
        | ok (used, b') ↦ push_messages amount_requests 0 next_packet_id b'
      ]

  -- IoUringSend::submit_zc: `amount_datagrams` ids are used after `count` accepted requests.
  unfoldable pub submit_zc : ℕ → ℕ → ℕ → ℕ → PacketBuffer → Submission
  submit_zc zero count amount_datagrams next_packet_id b = record {
    result = ok count;
    buffers = b;
    entries = [];
  }
  submit_zc (suc n) count amount_datagrams next_packet_id b =
      let (index, b1) = get_buffer_index b in
      elim index [
        | err e ↦ record { result = err e; buffers = b1; entries = [] }
        | fault x ↦ record { result = fault x; buffers = b1; entries = [] }
        | ok i ↦ elim (add_packet_ids_to_msghdr (add64 next_packet_id amount_datagrams) i b1) [
          | err e ↦ record { result = err e; buffers = b1; entries = [] }
          | fault x ↦ record { result = fault x; buffers = b1; entries = [] }
          | ok (used, b2) ↦ elim (get_msghdr_from_index b2 i) [
            | err e ↦ record { result = err e; buffers = b2; entries = [] }
            | fault x ↦ record { result = fault x; buffers = b2; entries = [] }
            | ok h ↦ elim (accepts count) [
              | true ↦
                  push_entry (record { message = h; user_data = i })
                    (submit_zc n (count + 1) (add64 amount_datagrams used) next_packet_id b2)
              | false ↦ record { result = ok count; buffers = b2; entries = [] }
            ]
          ]
        ]
      ]

  -- IoUringProvidedBuffer::submit: the kernel chooses the buffers.
  unfoldable pub submit_provided : ℕ → ℕ → ℕ
  submit_provided zero count = count
  submit_provided (suc n) count = elim (accepts count) [
    | true ↦ submit_provided n (count + 1)
    | false ↦ count
  ]

  -- IoUringMultishot::submit
  unfoldable pub submit_multishot : Outcome ℕ
  submit_multishot = if accepts 0 then ok 1 else err io_uring_error

-- `array[index] += 1` on an array that is recorded; out of range is a panic.
unfoldable pub record_slot : ℕ → Option (List ℕ) → Outcome (Option (List ℕ))
record_slot index none = ok none
record_slot index (some slots) = elim (get_elem? slots index) [
  | none ↦ fault panicked
  | some n ↦ ok (some (set slots index (add64 n 1)))
]

-- What the rings say in the course of one call: the queues before it, the length of the submission
-- queue after the pushes, and the completion queue after the kernel was entered.
pub record RingAnswers : Type 0 where
  pub view : RingView
  pub submitter : Submitter
  pub sq_len_after : ℕ
  pub cq_len_after : ℕ

abbrev pub uring_enter_timeout : ℕ
uring_enter_timeout = 10_000_000

-- The second half of each `fill_sq_and_submit`: the utilization of the queues and the kernel call.
unfoldable pub enter_and_record : RingAnswers → ℕ → Statistic → Outcome Statistic
unfolding record_slot
enter_and_record a min_complete s = do
  sq ← record_slot a.sq_len_after s.uring_sq_utilization
  overflow ← io_uring_enter a.submitter uring_enter_timeout min_complete
  cq ← record_slot a.cq_len_after s.uring_cq_utilization
  ok (record s {
    uring_sq_utilization = sq;
    uring_cq_overflows = add64 s.uring_cq_overflows overflow;
    uring_cq_utilization = cq;
  })

-- Where the kernel call fails, the utilization of the submission queue was recorded before it.
abbrev submission_recorded : RingAnswers → Statistic → Statistic
submission_recorded a s = elim (record_slot a.sq_len_after s.uring_sq_utilization) [
  | ok sq ↦ record s { uring_sq_utilization = sq }
  | err e ↦ s
  | fault x ↦ s
]

-- A filled ring: the new requests, the buffers, the statistic, and the entries pushed.
pub record Filled : Type 0 where
  pub requests : Outcome ℕ
  pub buffers : PacketBuffer
  pub statistic : Statistic
  pub entries : List Sqe

abbrev enter_filled : RingAnswers → ℕ → Statistic → Submission → Filled
enter_filled a min_complete s r =
    let left = λ (x : Outcome ℕ) (t : Statistic).
      let f : Filled = record {
        requests = x;
        buffers = r.buffers;
        statistic = t;
        entries = r.entries;
      } in
      f in
    elim r.result [
      | err e ↦ left (err e) s
      | fault x ↦ left (fault x) s
      | ok n ↦ elim (enter_and_record a min_complete s) [
        | err e ↦ left (err e) (submission_recorded a s)
        | fault x ↦ left (fault x) s
        | ok t ↦ left (ok n) t
      ]
    ]

unfoldable pub is_nothing : ℕ × ℕ → Bool
is_nothing (zero, zero) = true
is_nothing _ = false

-- IoUringNormal::fill_sq_and_submit
unfoldable pub fill_sq_and_submit_normal :
    (ℕ → ℕ → ℕ) → (ℕ → Bool) → RingAnswers → UringParameter → ℕ → PacketBuffer → Statistic → Filled
fill_sq_and_submit_normal grow accepts a p amount_inflight b s =
    let plan = calc_sq_fill_mode amount_inflight p a.view in
    elim (is_nothing plan) [
      | true ↦ record { requests = ok 0; buffers = b; statistic = s; entries = [] }
      | false ↦ enter_filled a plan.1 s (submit_normal grow accepts plan.0 0 b)
    ]

-- IoUringSend::fill_sq_and_submit
unfoldable pub fill_sq_and_submit_send :
    (ℕ → Bool) → RingAnswers → UringParameter → Bool → ℕ → ℕ → PacketBuffer → Statistic → Filled
fill_sq_and_submit_send accepts a p zerocopy amount_inflight next_packet_id b s =
    let plan = calc_sq_fill_mode (amount_inflight % u32_mod) p a.view in
    elim (is_nothing plan) [
      | true ↦ record { requests = ok 0; buffers = b; statistic = s; entries = [] }
      | false ↦ enter_filled a plan.1 s (
          if zerocopy
          then submit_zc accepts plan.0 0 0 next_packet_id b
          else submit_send accepts plan.0 next_packet_id b)
    ]

-- IoUringProvidedBuffer::fill_sq_and_submit: the new requests and the statistic.
unfoldable pub fill_sq_and_submit_provided :
    (ℕ → Bool) → RingAnswers → UringParameter → ℕ → Statistic → Outcome (ℕ × Statistic)
fill_sq_and_submit_provided accepts a p amount_inflight s =
    let plan = calc_sq_fill_mode amount_inflight p a.view in
    elim (is_nothing plan) [
      | true ↦ ok (0, s)
      | false ↦ enter_and_record a plan.1 s >>= λ t. ok (submit_provided accepts plan.0 0, t)
    ]

-- IoUringMultishot::fill_sq_and_submit: the one request is pushed unless it is armed.
unfoldable pub fill_sq_and_submit_multishot :
    (ℕ → Bool) → RingAnswers → Bool → Statistic → Outcome (ℕ × Statistic)
fill_sq_and_submit_multishot accepts a armed s = do
  requests ← if armed then ok 0 else submit_multishot accepts
  sq ←
      if armed then ok s.uring_sq_utilization else record_slot a.sq_len_after s.uring_sq_utilization
  overflow ← io_uring_enter a.submitter uring_enter_timeout 1
  cq ← record_slot a.cq_len_after s.uring_cq_utilization
  ok (
    requests,
    record s {
      uring_sq_utilization = sq;
      uring_cq_overflows = add64 s.uring_cq_overflows overflow;
      uring_cq_utilization = cq;
    },
  )
