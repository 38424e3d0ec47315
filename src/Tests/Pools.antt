-- ===== src/Tests/Pools.antt =====
-- The theorems on the pool of buffers and on the rings at concrete inputs.
use mathlib.Core.List.{Perm, perm_middle}
use nperf.Base.{
  ltb, ℕ, ◌+◌, ◌≡◌, ◌≢◌, ◌≤◌, ◌⊎◌, refl, List, [], ◌∷◌, arith, range_from, true, false, ok, err,
  no_buffers_left, pos, none,
}
use nperf.Buffer.PacketBuffer.{get_msghdr_from_index, get_buffer_index, get_pool_inflight}
use nperf.Buffer.PacketBuffer.Pool.{IsPool}
use nperf.Statistic
use nperf.Uring.{io_uring_enter, RingView, calc_sq_fill_mode, submitted}
use nperf.Uring.FillMode.{IsSizedRing, calc_sq_fill_mode_bounds}
use nperf.Uring.Submit.SendPool.{submit_send-get_pool_inflight}
use nperf.Uring.Submit.{
  is_nothing, submit_normal, enter_and_record, submit_send, submit_zc, RingAnswers,
  fill_sq_and_submit_normal,
}
use nperf.Uring.Submit.ZeroCopyPool.{Takes, submit_zc-Takes}
use nperf.Uring.Submit.NormalPool.{launched, Fills, fill_sq_and_submit_normal-Fills}
use nperf.Node.Receiver.Run.Uring.{UringPass, UringRunning, fill_normal}
use nperf.Node.Receiver.Run.Flights.{drained, Landed, filled, fill_normal-Landed}
use nperf.Node.Receiver.Completion.{Cqe, io_uring_complete_normal}
use nperf.Node.Receiver.Completion.Drained.{io_uring_complete_normal-IsPool}
use nperf.Tests.{buffers, small_ring, fresh, whole, a_receiver}

buffers-Perm : Perm (1 ∷ 0 ∷ 2 ∷ 3 ∷ []) (range_from 0 4)
buffers-Perm = perm_middle (1 ∷ []) (2 ∷ 3 ∷ [])

buffers-IsPool : IsPool 4 (2 ∷ 3 ∷ []) buffers
buffers-IsPool = record { all = buffers-Perm; capacity = refl; buffers = refl; small = omega arith }

small_ring-IsSizedRing : IsSizedRing small_ring
small_ring-IsSizedRing = record {
  burst = omega arith;
  buffers = refl;
  ring = omega arith;
  ring_pos = omega arith;
}

abbrev flying : List ℕ
flying = 2 ∷ 3 ∷ []

abbrev view : RingView
view = record { cq_empty = false; sq_capacity = 1; sq_len = 0 }

calc_sq_fill_mode_bounds_example :
    let (to_submit, min_complete) = calc_sq_fill_mode 2 small_ring view in
    (to_submit + 2 ≤ 4) × (min_complete ≤ 1) × ((to_submit ≡ 0) ⊎ (3 ≤ 4))
calc_sq_fill_mode_bounds_example =
    calc_sq_fill_mode_bounds 2 small_ring view small_ring-IsSizedRing (omega arith)

abbrev answers : RingAnswers
answers = record {
  view = view;
  submitter = record { submit_and_wait = λ n. submitted n; submit_with_args = λ n t. submitted n };
  sq_len_after = 1;
  cq_len_after = 0;
}

fill_sq_and_submit_normal-Fills_example : Fills 4 (2 ∷ 3 ∷ []) (
    fill_sq_and_submit_normal
      (λ a b. b)
      (λ k. true)
      answers
      small_ring
      (get_pool_inflight buffers)
      buffers
      fresh)
fill_sq_and_submit_normal-Fills_example =
    fill_sq_and_submit_normal-Fills (λ a b. b) (λ k. true) answers small_ring (2 ∷ 3 ∷ []) buffers
      fresh small_ring-IsSizedRing buffers-IsPool

-- Buffer 2 holds a datagram of test 7.
abbrev completions : List Cqe
completions = record { result = pos 24; user_data = 2; flags = 0 } ∷ []

io_uring_complete_normal-IsPool_example :
    let d = io_uring_complete_normal whole 9 (λ a b. b) completions a_receiver in
    ((count : ℕ) × (d.0 ≡ ok count) × IsPool 4 (3 ∷ []) d.1.packet_buffer)
    ⊎ (((count : ℕ) → d.0 ≢ ok count) × IsPool 4 (2 ∷ 3 ∷ []) d.1.packet_buffer)
io_uring_complete_normal-IsPool_example =
    io_uring_complete_normal-IsPool whole 9 (λ a b. b) completions a_receiver 4 (3 ∷ [])
      buffers-IsPool

-- Four requests are pushed, and still two buffers are in flight.
submit_send-get_pool_inflight_example :
    get_pool_inflight (submit_send (λ k. true) 4 300 buffers).buffers ≡ get_pool_inflight buffers
submit_send-get_pool_inflight_example = submit_send-get_pool_inflight (λ k. true) 4 300 buffers

-- The queue takes one of two entries, and the second index is lost.
submit_zc-Takes_example :
    Takes 2 0 (λ k. ltb k 1) buffers (submit_zc (λ k. ltb k 1) 2 0 0 300 buffers)
submit_zc-Takes_example = submit_zc-Takes (λ k. ltb k 1) 2 0 0 300 buffers

-- Buffer 1 is pushed, and buffer 2 completes.
abbrev uring_pass : UringPass
uring_pass = record {
  clocks = record { test = 0; due = 0; call = 0; call_unix = 0; new_unix = 0 };
  now = 9;
  accepts = λ k. true;
  ring = answers;
  cqes = completions;
}

abbrev uring_running : UringRunning
uring_running = record {
  running = record { receiver = a_receiver; statistic = fresh };
  armed = false;
  amount_inflight = 2;
  ring_statistic = fresh;
}

completes :
    Perm
      (2 ∷ 1 ∷ 3 ∷ [])
      (launched (filled (λ a b. b) uring_pass uring_running).entries (2 ∷ 3 ∷ []))
unfolding fill_sq_and_submit_normal calc_sq_fill_mode get_pool_inflight is_nothing submit_normal
    get_buffer_index get_msghdr_from_index enter_and_record Statistic.new io_uring_enter
completes = perm_middle (2 ∷ []) (3 ∷ [])

fill_normal-Landed_example :
    let t =
      fill_normal whole
        (λ a b. b)
        (λ f. false)
        (λ f n. [])
        (λ f n. none)
        uring_pass
        uring_running in
    Landed 4
      (2 ∷ [])
      (1 ∷ 3 ∷ [])
      (drained whole (λ a b. b) (λ f. false) (λ f n. []) (λ f n. none) uring_pass uring_running)
      t.1.running.receiver.packet_buffer
    × ((filled (λ a b. b) uring_pass uring_running).requests ≢ err no_buffers_left)
fill_normal-Landed_example =
    fill_normal-Landed whole (λ a b. b) (λ f. false) (λ f n. []) (λ f n. none) uring_pass
      uring_running (2 ∷ 3 ∷ []) (1 ∷ 3 ∷ []) small_ring-IsSizedRing buffers-IsPool completes
