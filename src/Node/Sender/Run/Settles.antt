-- ===== src/Node/Sender/Run/Settles.antt =====
-- The packet ids of the whole of `io_uring_loop` of `Sender` in src/node/sender.rs.
use nperf.Base.{
  if◌then◌else◌, ℕ, Bool, List, [], ◌∷◌, Option, none, some, leb, Outcome, ok, err, fault,
}
use nperf.Config.Floats.{Floats}
use nperf.Node.Interval.{elapsed, as_secs}
use nperf.Node.Sender.{Sender}
use nperf.Node.Sender.Run.Uring.{UringRound, UringSender, uring_round}
use nperf.Node.Sender.Run.Settling.{Settled, left_over}

module _ (more notif : ℕ → Bool) (grow : ℕ → ℕ → ℕ) (fl : Floats) where
  -- The requests that are open where the loop leaves off: `pending` at first, and in each of its passes the new ones
  -- join and the ones that are completed for the first time leave.
  unfoldable pub open_after : ℕ → ℕ → List UringRound → UringSender → ℕ
  open_after pending start [] u = pending
  open_after pending start (r ∷ rs) u =
      let t = uring_round more notif grow fl r u in
      let rest = open_after (left_over more notif grow fl pending r u) start rs t.1 in
      if leb u.sender.run_time_length (as_secs (elapsed start r.clocks.test))
      then pending
      else elim t.0 [ ok v ↦ rest | err e ↦ pending | fault x ↦ pending ]

  -- What a loop leaves that is not ended by an error, with `q` requests open.
  abbrev pub Settles : ℕ → ℕ → Option (Outcome (Unit {0})) × UringSender → Type 0
  Settles per q (none, v) = Settled fl per q v
  Settles per q (some (ok u), v) = Settled fl per q v
  Settles per q (some (err e), v) = Unit {0}
  Settles per q (some (fault x), v) = Unit {0}
