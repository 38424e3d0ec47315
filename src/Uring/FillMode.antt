-- ===== src/Uring/FillMode.antt =====
-- `calc_sq_fill_mode` never asks for more requests than there are buffers left.
use nperf.Base.{ℕ, ◌+◌, ◌*◌, ◌≤◌, ◌<◌, ◌≡◌, arith, ◌⊎◌}
use nperf.Config.{UringParameter, UringSqFillingMode, topup, topup_no_wait, syscall}
use nperf.Uring.{RingView, calc_sq_fill_mode, to_submit_of}

-- What `parameter_check` establishes of the sizes.
pub record IsSizedRing (p : UringParameter) : Type 0 where
  pub burst : p.burst_size ≤ p.ring_size
  pub buffers : p.buffer_size ≡ 4 * p.ring_size
  pub ring : p.ring_size ≤ 2048
  pub ring_pos : 0 < p.ring_size

to_submit_of-le :
    (f : UringSqFillingMode) (inflight : ℕ) (p : UringParameter) (ring : RingView)
    → IsSizedRing p
    → inflight ≤ p.buffer_size
    → to_submit_of f inflight p ring + inflight ≤ p.buffer_size
unfolding to_submit_of
to_submit_of-le syscall inflight p ring s h = ground arith
to_submit_of-le topup inflight p ring s h = ground arith
to_submit_of-le topup_no_wait inflight p ring s h = ground arith

-- For a ring of checked sizes with no more requests in flight than buffers: what is to be submitted
-- fits the buffers that are left, the wait is for at most as many completions as the ring has
-- entries, and either nothing is to be submitted or a burst of buffers is left.
pub calc_sq_fill_mode_bounds :
    (inflight : ℕ) (p : UringParameter) (ring : RingView)
    → IsSizedRing p
    → inflight ≤ p.buffer_size
    → let (to_submit, min_complete) = calc_sq_fill_mode inflight p ring in
      (to_submit + inflight ≤ p.buffer_size)
      × (min_complete ≤ p.ring_size)
      × ((to_submit ≡ 0) ⊎ (inflight + p.burst_size ≤ p.buffer_size))
unfolding calc_sq_fill_mode
calc_sq_fill_mode_bounds inflight p ring s h =
    ground (arith, to_submit_of-le p.sq_filling_mode inflight p ring s h)
