-- ===== src/Node/Sender/Run/Ending.antt =====
-- The loop of `Sender::run` of src/node/sender.rs ends: no call changes the time to run.
use nperf.Base.{
  ℕ, ◌≤◌, ◌≡◌, ◌≢◌, refl, ◌∙◌, inl, inr, List, [], ◌∷◌, ◌++◌, Option, none, some, Outcome, ok, err,
  fault, Error, eagain, leb, le→leb, Bool-cases, Outcome-cases, arith,
}
use nperf.Config.{normal, msg, mmsg, IoModel}
use nperf.Config.Floats.{F64, Floats}
use nperf.Statistic.{Statistic}
use nperf.Statistic.Interval.{StatisticInterval, calculate_interval}
use nperf.Net.Socket.{Answer}
use nperf.Buffer.PacketBuffer.{Mmsghdr, add_packet_ids}
use nperf.Node.Interval.{Clocks, as_secs, elapsed, is_due}
use nperf.Node.Sender.{
  Sender, Sent, send, sendmsg, sendmmsg, send_messages, conclude, conclude_mmsg, not_sent, io_wait,
}
use nperf.Node.Sender.Run.{Round, after_wait, after_send, check_interval, send_round, send_loop}

-- The settings that a run reads from the sender.
abbrev pub SameSettings : Sender → Sender → Type 0
SameSettings s x =
    (x.run_time_length ≡ s.run_time_length)
    × (x.statistic_interval.output_interval ≡ s.statistic_interval.output_interval)

SameSettings-trans : (s x y : Sender) → SameSettings s x → SameSettings x y → SameSettings s y
SameSettings-trans s x y (a, b) (c, d) = (c ∙ a, d ∙ b)

not_sent-SameSettings : (a : ℕ) (e : Error) (s : Sender) → SameSettings s (not_sent a e s).1
not_sent-SameSettings a eagain s = (refl, refl)
not_sent-SameSettings a _ s = (refl, refl)

conclude-SameSettings : (a : ℕ) (o : Outcome ℕ) (s : Sender) → SameSettings s (conclude a o s).1
conclude-SameSettings a (ok n) s = (refl, refl)
conclude-SameSettings a (err e) s = not_sent-SameSettings a e s
conclude-SameSettings a (fault x) s = (refl, refl)

conclude_mmsg-SameSettings :
    (a : ℕ) (o : Outcome ℕ) (s : Sender) → SameSettings s (conclude_mmsg a o s).1
conclude_mmsg-SameSettings a (ok n) s = (refl, refl)
conclude_mmsg-SameSettings a (err e) s = not_sent-SameSettings a e s
conclude_mmsg-SameSettings a (fault x) s = (refl, refl)

send-SameSettings : (answer : Answer) (s : Sender) → SameSettings s (send answer s).1
unfolding send
send-SameSettings answer s =
    elim (Outcome-cases (add_packet_ids s.next_packet_id none s.packet_buffer)) [
      | inl (a, e) ↦ rw e (conclude-SameSettings _ _ _)
      | inr (inl (x, e)) ↦ rw e (refl, refl)
      | inr (inr (x, e)) ↦ rw e (refl, refl)
    ]

sendmsg-SameSettings : (answer : Answer) (s : Sender) → SameSettings s (sendmsg answer s).1
unfolding sendmsg
sendmsg-SameSettings answer s =
    elim (Outcome-cases (add_packet_ids s.next_packet_id none s.packet_buffer)) [
      | inl (a, e) ↦ rw e (conclude-SameSettings _ _ _)
      | inr (inl (x, e)) ↦ rw e (refl, refl)
      | inr (inr (x, e)) ↦ rw e (refl, refl)
    ]

sendmmsg-SameSettings :
    (answer : Answer) (wrote : List Mmsghdr → List Mmsghdr) (s : Sender)
    → SameSettings s (sendmmsg answer wrote s).1
unfolding sendmmsg
sendmmsg-SameSettings answer wrote s =
    elim (Outcome-cases (add_packet_ids s.next_packet_id none s.packet_buffer)) [
      | inl (a, e) ↦ rw e (conclude_mmsg-SameSettings _ _ _)
      | inr (inl (x, e)) ↦ rw e (refl, refl)
      | inr (inr (x, e)) ↦ rw e (refl, refl)
    ]

send_messages-SameSettings :
    (answer : Answer) (wrote : List Mmsghdr → List Mmsghdr) (s : Sender)
    → SameSettings s (send_messages answer wrote s).1
unfolding send_messages
send_messages-SameSettings answer wrote s =
    elim s.exchange_function
      as (λ e.
        SameSettings s
          (elim e as (λ _. Sent) [
            | normal ↦ send answer s
            | msg ↦ sendmsg answer s
            | mmsg ↦ sendmmsg answer wrote s
          ]).1) [
            | normal ↦ send-SameSettings answer s
            | msg ↦ sendmsg-SameSettings answer s
            | mmsg ↦ sendmmsg-SameSettings answer wrote s
          ]

after_wait-SameSettings : (o : Outcome (Unit {0})) (s : Sender) → SameSettings s (after_wait o s).1
after_wait-SameSettings (ok u) s = (refl, refl)
after_wait-SameSettings (err e) s = (refl, refl)
after_wait-SameSettings (fault x) s = (refl, refl)

after_send-SameSettings :
    (m : IoModel) (ready : Answer) (r : Sent) → SameSettings r.1 (after_send m ready r).1
after_send-SameSettings m ready (ok u, s) = (refl, refl)
after_send-SameSettings m ready (err eagain, s) = after_wait-SameSettings (io_wait m ready) _
after_send-SameSettings m ready (err _, s) = (refl, refl)
after_send-SameSettings m ready (fault x, s) = (refl, refl)

module _ (fl : Floats) where
  pub calculate_interval-output_interval :
      (t : Statistic) (now : ℕ) (unix : F64) (v : StatisticInterval)
      → (calculate_interval fl t now unix v).output_interval ≡ v.output_interval
  unfolding calculate_interval
  calculate_interval-output_interval t now unix v =
      elim (Bool-cases (leb v.total_interval_outputs v.amount_interval_outputs)) [
        | inl e ↦ rw e refl
        | inr e ↦ rw e refl
      ]

  pub check_interval-SameSettings :
      (c : Clocks) (s : Sender) → SameSettings s (check_interval fl c s)
  unfolding check_interval
  check_interval-SameSettings c s = elim (Bool-cases (is_due fl c.due s.statistic_interval)) [
    | inl e ↦ rw e (
      refl,
      calculate_interval-output_interval s.statistic c.call c.call_unix s.statistic_interval,
    )
    | inr e ↦ rw e (refl, refl)
  ]

  pub send_round-SameSettings :
      (m : IoModel) (r : Round) (s : Sender) → SameSettings s (send_round fl m r s).1
  unfolding send_round
  send_round-SameSettings m r s =
      let x = check_interval fl r.clocks s in
      let y = send_messages r.answer r.wrote x in
      let z = after_send m r.ready y in
      SameSettings-trans s x z.1 (check_interval-SameSettings r.clocks s) (
        SameSettings-trans x y.1 z.1 (send_messages-SameSettings r.answer r.wrote x)
          (after_send-SameSettings m r.ready y))

  -- The loop of a sender is over at the latest with the first pass that begins once the time to run
  -- has passed, whatever the passes before it did.
  pub send_loop-ends :
      (m : IoModel) (start : ℕ) (before after : List Round) (r : Round) (s : Sender)
      → s.run_time_length ≤ as_secs (elapsed start r.clocks.test)
      → (send_loop fl m start (before ++ (r ∷ after)) s).0 ≢ none
  unfolding send_loop
  send_loop-ends m start [] after r s late = rw (le→leb _ _ late) (λ h. cc)
  send_loop-ends m start (b ∷ before) after r s late =
      elim (Bool-cases (leb s.run_time_length (as_secs (elapsed start b.clocks.test)))) [
        | inl e ↦ rw e (λ h. cc)
        | inr e ↦ rw e (
            go (send_round fl m b s).0 (send_round fl m b s).1 (
              send_loop-ends m start before after r (send_round fl m b s).1
                (omega (arith, (send_round-SameSettings m b s).0))))
      ]
    where
      go :
          (o : Outcome (Unit {0})) (x : Sender)
          → (send_loop fl m start (before ++ (r ∷ after)) x).0 ≢ none
          → let q : Option (Outcome (Unit {0})) × Sender = elim o [
            | ok u ↦ send_loop fl m start (before ++ (r ∷ after)) x
            | err e ↦ (some (err e), x)
            | fault z ↦ (some (fault z), x)
          ] in
            q.0 ≢ none
      go (ok u) x h = h
      go (err e) x h = λ k. cc
      go (fault z) x h = λ k. cc

  -- The loop as a whole keeps the settings.
  pub send_loop-SameSettings :
      (m : IoModel) (start : ℕ) (rs : List Round) (s : Sender)
      → SameSettings s (send_loop fl m start rs s).1
  unfolding send_loop
  send_loop-SameSettings m start [] s = (refl, refl)
  send_loop-SameSettings m start (r ∷ rs) s =
      elim (Bool-cases (leb s.run_time_length (as_secs (elapsed start r.clocks.test)))) [
        | inl e ↦ rw e (refl, refl)
        | inr e ↦ rw e (
            go (send_round fl m r s).0 (send_round fl m r s).1 (send_round-SameSettings m r s)
              (send_loop-SameSettings m start rs (send_round fl m r s).1))
      ]
    where
      go :
          (o : Outcome (Unit {0})) (x : Sender)
          → SameSettings s x
          → SameSettings x (send_loop fl m start rs x).1
          → (let q : Option (Outcome (Unit {0})) × Sender = elim o [
            | ok u ↦ send_loop fl m start rs x
            | err e ↦ (some (err e), x)
            | fault z ↦ (some (fault z), x)
          ] in
              SameSettings s q.1)
      go (ok u) x h k = SameSettings-trans s x (send_loop fl m start rs x).1 h k
      go (err e) x h k = h
      go (fault z) x h k = h
