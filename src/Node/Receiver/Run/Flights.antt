-- ===== src/Node/Receiver/Run/Flights.antt =====
-- The buffers in flight over a pass of the receiver's loop over io_uring in the normal mode:
-- `io_uring_loop` of src/node/receiver.rs with src/io_uring/normal.rs.
use mathlib.Core.List.{Perm, perm-append_left_iff}
use mathlib.Core.List.Perm
use nperf.Base.{
  ℕ, ◌%◌, ◌≡◌, ◌≢◌, refl, ap, sym, subst, inl, inr, Bool, List, ◌++◌, map, Option, arith, u32_mod,
  Outcome, ok, err, fault, Error, init_message_received, last_message_received, eagain,
  no_buffers_left,
}
use nperf.Config.Floats.{Floats}
use nperf.Buffer.PacketBuffer.{PacketBuffer, get_pool_inflight}
use nperf.Buffer.PacketBuffer.Pool.{IsPool, get_pool_inflight-IsPool, count-IsPool}
use nperf.Uring.FillMode.{IsSizedRing}
use nperf.Uring.Submit.{Filled, fill_sq_and_submit_normal}
use nperf.Uring.Submit.NormalPool.{launched, Fills, fill_sq_and_submit_normal-Fills}
use nperf.Node.Receiver.{Receiver}
use nperf.Node.Receiver.Completion.{Cqe, RecvMsgOut, io_uring_complete_normal}
use nperf.Node.Receiver.Completion.Drained.{io_uring_complete_normal-IsPool}
use nperf.Node.Receiver.Run.Uring.{
  UringPass, UringRunning, and_then, after_error, after_completion, complete_normal, fill_normal,
  with_receiver, submitted,
}

-- The buffers that the completions of a pass name.
abbrev pub indices : List Cqe → List ℕ
indices = map (λ (c : Cqe). c.user_data)

after_error-receiver :
    (e : Error) (u : UringRunning) → (after_error e u).1.running.receiver ≡ u.running.receiver
after_error-receiver init_message_received u = refl
after_error-receiver last_message_received u = refl
after_error-receiver eagain u = refl
after_error-receiver _ u = refl

after_completion-receiver :
    (o : Outcome ℕ) (u : UringRunning)
    → (after_completion o u).1.running.receiver ≡ u.running.receiver
after_completion-receiver (ok n) u = refl
after_completion-receiver (err e) u = after_error-receiver e u
after_completion-receiver (fault x) u = refl

IsPool-perm :
    (n : ℕ) (flying landed : List ℕ) (b : PacketBuffer)
    → Perm landed flying
    → IsPool n flying b
    → IsPool n landed b
IsPool-perm n flying landed b p q = record {
  all = Perm.trans ((perm-append_left_iff b.index_pool).1 p) q.all;
  capacity = q.capacity;
  buffers = q.buffers;
  small = q.small;
}

-- After a drain that succeeded all buffers of the completions came back, after any other none did.
abbrev pub Landed : ℕ → List ℕ → List ℕ → Outcome ℕ → PacketBuffer → Type 0
Landed n landed rest (ok count) b = IsPool n rest b
Landed n landed rest (err e) b = IsPool n (landed ++ rest) b
Landed n landed rest (fault x) b = IsPool n (landed ++ rest) b

Landed-ok :
    (n count : ℕ) (landed rest : List ℕ) (o : Outcome ℕ) (b : PacketBuffer)
    → o ≡ ok count
    → IsPool n rest b
    → Landed n landed rest o b
Landed-ok n count landed rest o b e k = rw e k

Landed-failed :
    (n : ℕ) (landed rest : List ℕ) (o : Outcome ℕ) (b : PacketBuffer)
    → ((count : ℕ) → o ≢ ok count)
    → IsPool n (landed ++ rest) b
    → Landed n landed rest o b
Landed-failed n landed rest (ok count) b left k = absurd (left count refl)
Landed-failed n landed rest (err e) b left k = k
Landed-failed n landed rest (fault x) b left k = k

-- What `fill_sq_and_submit` makes in a pass.
abbrev pub filled : (ℕ → ℕ → ℕ) → UringPass → UringRunning → Filled
filled grow p u =
    let r = u.running.receiver in
    fill_sq_and_submit_normal grow p.accepts p.ring r.parameter.uring_parameter
      (get_pool_inflight r.packet_buffer % u32_mod) r.packet_buffer u.ring_statistic

abbrev pub size : UringRunning → ℕ
size u = u.running.receiver.parameter.uring_parameter.buffer_size

-- The number in flight is a u32.
inflight_u32 :
    (u : UringRunning) (flying : List ℕ)
    → IsSizedRing u.running.receiver.parameter.uring_parameter
    → IsPool (size u) flying u.running.receiver.packet_buffer
    → get_pool_inflight u.running.receiver.packet_buffer % u32_mod
      ≡ get_pool_inflight u.running.receiver.packet_buffer
inflight_u32 u flying z q =
    let f = get_pool_inflight-IsPool (size u) flying u.running.receiver.packet_buffer q in
    let c = count-IsPool (size u) flying u.running.receiver.packet_buffer q in
    omega (arith, f, c, z.buffers, z.ring)

module _ (fl : Floats) (grow : ℕ → ℕ → ℕ) (more : ℕ → Bool) (provided : ℕ → ℕ → List ℕ)
    (parse : ℕ → ℕ → Option RecvMsgOut) where
  -- The drain of a pass: none where the submission failed.
  abbrev pub drained : UringPass → UringRunning → Outcome ℕ
  drained p u =
      let f = filled grow p u in
      elim f.requests [
        | ok n ↦
            (io_uring_complete_normal fl p.now grow p.cqes
              (record u.running.receiver { packet_buffer = f.buffers })).0
        | err e ↦ err e
        | fault x ↦ fault x
      ]

  complete_normal-Landed :
      (p : UringPass) (n : ℕ) (rest : List ℕ) (u : UringRunning)
      → IsPool n (indices p.cqes ++ rest) u.running.receiver.packet_buffer
      → Landed n
          (indices p.cqes)
          rest
          (io_uring_complete_normal fl p.now grow p.cqes u.running.receiver).0
          (complete_normal fl grow more provided parse p u).1.running.receiver.packet_buffer
  complete_normal-Landed p n rest u q =
      let d = io_uring_complete_normal fl p.now grow p.cqes u.running.receiver in
      let same =
        ap (λ (r : Receiver). r.packet_buffer)
          (after_completion-receiver d.0 (with_receiver d.1 u)) in
      elim (io_uring_complete_normal-IsPool fl p.now grow p.cqes u.running.receiver n rest q) [
        | inl (count, e, k) ↦
            Landed-ok n count (indices p.cqes) rest d.0 _ e (subst (IsPool n rest) (sym same) k)
        | inr (failed, k) ↦
            Landed-failed n (indices p.cqes) rest d.0 _ failed
              (subst (IsPool n (indices p.cqes ++ rest)) (sym same) k)
      ]

  -- A pass over the ring of a receiver in the normal mode, from its submission to its completions, loses no buffer:
  -- every buffer is either free or in flight afterwards. Where the drain of the completions succeeds, those in flight
  -- are exactly the ones that were not completed in the pass; where it is left early, or the submission failed, all
  -- that were in flight after the submission. And the submission never runs out of buffers. The completions name
  -- buffers in flight, the ring has checked sizes, and there are as many buffers as it asks for.
  pub fill_normal-Landed :
      (p : UringPass) (u : UringRunning) (flying rest : List ℕ)
      → IsSizedRing u.running.receiver.parameter.uring_parameter
      → IsPool (size u) flying u.running.receiver.packet_buffer
      → Perm (indices p.cqes ++ rest) (launched (filled grow p u).entries flying)
      → Landed
          (size u)
          (indices p.cqes)
          rest
          (drained p u)
          (fill_normal fl grow more provided parse p u).1.running.receiver.packet_buffer
        × ((filled grow p u).requests ≢ err no_buffers_left)
  fill_normal-Landed p u flying rest z q completes =
      let r = u.running.receiver in
      let fills : Fills (size u) flying (filled grow p u) =
        subst
          (λ n. Fills (size u) flying (
            fill_sq_and_submit_normal grow p.accepts p.ring r.parameter.uring_parameter n
              r.packet_buffer u.ring_statistic))
          (sym (inflight_u32 u flying z q))
          (fill_sq_and_submit_normal-Fills grow p.accepts p.ring r.parameter.uring_parameter flying
            r.packet_buffer u.ring_statistic z q) in
      let pool = IsPool-perm (size u) _ _ (filled grow p u).buffers completes fills.pool in
      (go (filled grow p u).requests pool, fills.supplied)
    where
      v : UringRunning
      v = with_receiver (record u.running.receiver { packet_buffer = (filled grow p u).buffers }) u

      go :
          (o : Outcome ℕ)
          → IsPool (size u) (indices p.cqes ++ rest) (filled grow p u).buffers
          → let d : Outcome ℕ = elim o [
            | ok n ↦ (io_uring_complete_normal fl p.now grow p.cqes v.running.receiver).0
            | err e ↦ err e
            | fault x ↦ fault x
          ] in
            Landed
              (size u)
              (indices p.cqes)
              rest
              d
              (and_then o v (λ n.
                complete_normal fl grow more provided parse p
                  (submitted n (filled grow p u).statistic v))).1.running.receiver.packet_buffer
      go (ok n) k =
          complete_normal-Landed p (size u) rest (submitted n (filled grow p u).statistic v) k
      go (err e) k = k
      go (fault x) k = k
