-- ===== src/Node/Receiver/Completion/Drained.antt =====
-- The pool of buffers over `io_uring_complete_normal` of src/node/receiver.rs.
use mathlib.Core.List.{append_assoc, append-nil, Perm}
use nperf.Base.{
  ℕ, ◌≡◌, ◌≢◌, refl, ap, sym, ◌∙◌, subst, ◌⊎◌, inl, inr, Bool, true, false, List, [], ◌∷◌, ◌++◌,
  map, length, length-set, get_elem?, set, unwrap_some, add32, if◌then◌else◌, range_from, Outcome,
  bind_ok, ok_inj, ok, err, fault, Option, none, some, ℤ,
}
use nperf.Config.Floats.{F64, Floats}
use nperf.Net.Header.{MessageType}
use nperf.Node.Receiver.Measurements.{parse_message_type}
use nperf.Statistic.{Measurement}
use nperf.Buffer.PacketBuffer.{PacketBuffer, Mmsghdr, reset_fields}
use nperf.Buffer.PacketBuffer.Pool.{IsPool, return_buffer_index-IsPool}
use nperf.Packets.{process_packet_msghdr}
use nperf.Uring.{parse_received_bytes}
use nperf.Node.Receiver.{Receiver}
use nperf.Node.Receiver.Recv.{take_message, reset_at, after_count, after_parse, after_header}
use nperf.Node.Receiver.Completion.{
  message_of, as_usize, is_init, given_back, Cqe, count_return, handle_recvmsg_return, drain_normal,
  io_uring_complete_normal,
}

-- The same indices in the pool of as many buffers.
record SamePool (b c : PacketBuffer) : Type 0 where
  index_pool : c.index_pool ≡ b.index_pool
  capacity : c.pool_capacity ≡ b.pool_capacity
  buffers : length c.mmsghdr_vec ≡ length b.mmsghdr_vec

SamePool-refl : (b : PacketBuffer) → SamePool b b
SamePool-refl b = record { index_pool = refl; capacity = refl; buffers = refl }

SamePool-trans : (b c d : PacketBuffer) → SamePool b c → SamePool c d → SamePool b d
SamePool-trans b c d p q = record {
  index_pool = q.index_pool ∙ p.index_pool;
  capacity = q.capacity ∙ p.capacity;
  buffers = q.buffers ∙ p.buffers;
}

SamePool-IsPool :
    (n : ℕ) (flying : List ℕ) (b c : PacketBuffer)
    → SamePool b c
    → IsPool n flying b
    → IsPool n flying c
SamePool-IsPool n flying b c s p = record {
  all = subst (λ x. Perm (x ++ flying) (range_from 0 n)) (sym s.index_pool) p.all;
  capacity = s.capacity ∙ p.capacity;
  buffers = s.buffers ∙ p.buffers;
  small = p.small;
}

reset_at-SamePool : (gro : Bool) (i : ℕ) (b : PacketBuffer) → SamePool b (reset_at gro i b)
reset_at-SamePool gro i b = go (get_elem? b.mmsghdr_vec i) gro
  where
    go :
        (o : Option Mmsghdr) (g : Bool)
        → SamePool b (elim o [
          | none ↦ b
          | some m ↦
              if g
              then record b {
                mmsghdr_vec = set b.mmsghdr_vec i (record m { msg_hdr = reset_fields m.msg_hdr });
              }
              else b
        ])
    go none g = SamePool-refl b
    go (some m) false = SamePool-refl b
    go (some m) true = record {
      index_pool = refl;
      capacity = refl;
      buffers = length-set b.mmsghdr_vec i _;
    }

count_return-SamePool :
    (a : ℤ) (i t : ℕ) (m : Measurement) (r r' : Receiver)
    → count_return a none i t m r ≡ ok r'
    → SamePool r.packet_buffer r'.packet_buffer
unfolding count_return
count_return-SamePool a i t m r r' e =
    let (h, read, rest) = bind_ok (message_of none i r) _ r' e in
    let (q, processed, done) =
      bind_ok (process_packet_msghdr h (as_usize a) r.next_packet_id m.statistic) _ r' rest in
    subst (λ x. SamePool r.packet_buffer x.packet_buffer) (ok_inj done)
      (reset_at-SamePool r.parameter.socket_options.gro i r.packet_buffer)

-- A way of counting that keeps the pool.
abbrev Keeps : (ℕ → Measurement → Receiver → Outcome Receiver) → Type 0
Keeps count =
    (t : ℕ) (m : Measurement) (x y : Receiver)
    → count t m x ≡ ok y
    → SamePool x.packet_buffer y.packet_buffer

after_count-SamePool :
    (r : Receiver) (o : Outcome Receiver)
    → ((y : Receiver) → o ≡ ok y → SamePool r.packet_buffer y.packet_buffer)
    → SamePool r.packet_buffer (after_count r o).1.packet_buffer
after_count-SamePool r (err e) k = SamePool-refl r.packet_buffer
after_count-SamePool r (fault x) k = SamePool-refl r.packet_buffer
after_count-SamePool r (ok y) k = k y refl

module _ (count : ℕ → Measurement → Receiver → Outcome Receiver) (k : Keeps count) where
  after_parse-SamePool :
      (t : ℕ) (r : Receiver) (o : Outcome (Unit {0}))
      → SamePool r.packet_buffer (after_parse count t r o).1.packet_buffer
  after_parse-SamePool t r (err e) = SamePool-refl r.packet_buffer
  after_parse-SamePool t r (fault x) = SamePool-refl r.packet_buffer
  after_parse-SamePool t r (ok u) = after_count-SamePool r _ λ y e.
      let (m, there, counted) =
        bind_ok (unwrap_some (get_elem? r.measurements t)) (λ m. count t m r) y e in
      k t m r y counted

  after_header-SamePool :
      (fl : Floats) (now : F64) (r : Receiver) (o : Outcome (ℕ × MessageType))
      → SamePool r.packet_buffer (after_header fl count now r o).1.packet_buffer
  after_header-SamePool fl now r (err e) = SamePool-refl r.packet_buffer
  after_header-SamePool fl now r (fault x) = SamePool-refl r.packet_buffer
  after_header-SamePool fl now r (ok (t, mtype)) =
      let p = parse_message_type fl mtype t now r.parameter r.measurements in
      after_parse-SamePool t (record r { measurements = p.1 }) p.0

module _ (fl : Floats) (now : F64) where
  handle_recvmsg_return-SamePool :
      (a : ℤ) (i : ℕ) (r : Receiver)
      → SamePool r.packet_buffer (handle_recvmsg_return fl now a none i r).1.packet_buffer
  unfolding handle_recvmsg_return take_message
  handle_recvmsg_return-SamePool a i r =
      after_header-SamePool (count_return a none i) (count_return-SamePool a i) fl now r _

  -- What the loop leaves: all indices collected, or the same pool and an early end.
  abbrev Collects : List Cqe → List ℕ → Receiver → Outcome (ℕ × List ℕ) × Receiver → Type 0
  Collects cs pool r d =
      SamePool r.packet_buffer d.1.packet_buffer
      × ((q : ℕ × List ℕ) → d.0 ≡ ok q → q.1 ≡ pool ++ map (λ c. c.user_data) cs)

  Collects-cons :
      (c : Cqe) (cs : List Cqe) (pool : List ℕ) (r r' : Receiver)
      (d : Outcome (ℕ × List ℕ) × Receiver)
      → SamePool r.packet_buffer r'.packet_buffer
      → Collects cs (pool ++ (c.user_data ∷ [])) r' d
      → Collects (c ∷ cs) pool r d
  Collects-cons c cs pool r r' d s (same, all) = (
    SamePool-trans r.packet_buffer r'.packet_buffer d.1.packet_buffer s same,
    λ q e. all q e ∙ append_assoc pool (c.user_data ∷ []) (map (λ c. c.user_data) cs),
  )

  drain_normal-Collects :
      (cs : List Cqe) (count : ℕ) (pool : List ℕ) (r : Receiver)
      → Collects cs pool r (drain_normal fl now cs count pool r)
  unfolding drain_normal
  drain_normal-Collects [] count pool r =
      (SamePool-refl r.packet_buffer, λ q e. ap (λ x. x.1) (sym (ok_inj e)) ∙ sym (append-nil pool))
  drain_normal-Collects (c ∷ cs) count pool r =
      go (parse_received_bytes c.result) (handle_recvmsg_return fl now c.result none c.user_data r)
        (handle_recvmsg_return-SamePool c.result c.user_data r) (drain_normal-Collects cs)
    where
      go :
          (o : Outcome ℕ) (h : Outcome (Unit {0}) × Receiver)
          → SamePool r.packet_buffer h.1.packet_buffer
          → ((k : ℕ) (q : List ℕ) (y : Receiver) → Collects cs q y (drain_normal fl now cs k q y))
          → Collects (c ∷ cs) pool r (elim o [
            | err e ↦ (err e, r)
            | fault x ↦ (fault x, r)
            | ok k ↦
                let rest =
                  drain_normal fl now cs (add32 count k) (pool ++ (c.user_data ∷ [])) h.1 in
                elim h.0 [
                  | ok u ↦ rest
                  | fault x ↦ (fault x, h.1)
                  | err e ↦ if is_init e then rest else (err e, h.1)
                ]
          ])
      go (err e) h s f = (SamePool-refl r.packet_buffer, λ q e. cc)
      go (fault x) h s f = (SamePool-refl r.packet_buffer, λ q e. cc)
      go (ok k) (ok u, r') s f =
          Collects-cons c cs pool r r'
            (drain_normal fl now cs (add32 count k) (pool ++ (c.user_data ∷ [])) r') s
            (f (add32 count k) (pool ++ (c.user_data ∷ [])) r')
      go (ok k) (fault x, r') s f = (s, λ q e. cc)
      go (ok k) (err e, r') s f =
          elim (is_init e)
            as (λ b. Collects (c ∷ cs) pool r (
              if b
              then drain_normal fl now cs (add32 count k) (pool ++ (c.user_data ∷ [])) r'
              else (err e, r'))) [
                | true ↦
                    Collects-cons c cs pool r r'
                      (drain_normal fl now cs (add32 count k) (pool ++ (c.user_data ∷ [])) r') s
                      (f (add32 count k) (pool ++ (c.user_data ∷ [])) r')
                | false ↦ (s, λ q e. cc)
              ]

-- A drain of the completion queue in the normal mode, of completions whose buffers are in flight, in
-- a pool of n buffers that are all either free or in flight: when it succeeds, all of their buffers are in the pool again and the others are in flight as
-- before; when it is left early, by an error or a panic, none of them is given back.
pub io_uring_complete_normal-IsPool :
    (fl : Floats) (now : F64) (grow : ℕ → ℕ → ℕ) (cs : List Cqe) (r : Receiver) (n : ℕ)
    (flying : List ℕ)
    → IsPool n (map (λ (c : Cqe). c.user_data) cs ++ flying) r.packet_buffer
    → let indices = map (λ (c : Cqe). c.user_data) cs in
      let d = io_uring_complete_normal fl now grow cs r in
      ((count : ℕ) × (d.0 ≡ ok count) × IsPool n flying d.1.packet_buffer)
      ⊎ (((count : ℕ) → d.0 ≢ ok count) × IsPool n (indices ++ flying) d.1.packet_buffer)
unfolding io_uring_complete_normal
io_uring_complete_normal-IsPool fl now grow cs r n flying p =
    go (drain_normal fl now cs 0 [] r) (drain_normal-Collects fl now cs 0 [] r)
  where
    indices : List ℕ
    indices = map (λ (c : Cqe). c.user_data) cs

    go :
        (d : Outcome (ℕ × List ℕ) × Receiver)
        → Collects fl now cs [] r d
        → let f = given_back grow d in
          ((count : ℕ) × (f.0 ≡ ok count) × IsPool n flying f.1.packet_buffer)
          ⊎ (((count : ℕ) → f.0 ≢ ok count) × IsPool n (indices ++ flying) f.1.packet_buffer)
    go (ok (count, back), r') (s, all) = inl (
      count,
      refl,
      return_buffer_index-IsPool grow n back flying r'.packet_buffer (
          subst (λ x. IsPool n (x ++ flying) r'.packet_buffer) (sym (all (count, back) refl))
            (SamePool-IsPool n (indices ++ flying) r.packet_buffer r'.packet_buffer s p)),
    )
    go (err e, r') (s, all) =
        inr (λ c e. cc, SamePool-IsPool n (indices ++ flying) r.packet_buffer r'.packet_buffer s p)
    go (fault x, r') (s, all) =
        inr (λ c e. cc, SamePool-IsPool n (indices ++ flying) r.packet_buffer r'.packet_buffer s p)
