-- ===== src/Node/Sender/Run/Passes.antt =====
-- What the loop of `Sender::run` of src/node/sender.rs keeps: the datagrams counted, over all
-- intervals, are the packet ids given out.
use nperf.Base.{
  ℕ, ◌+◌, ◌*◌, ◌^◌, ◌≤◌, ◌<◌, ◌≡◌, ◌≢◌, refl, ap, sym, ◌∙◌, ◌⊎◌, inl, inr, Bool, true, false, List,
  [], ◌∷◌, Option, none, some, arith, length, if◌then◌else◌, Bool-cases, Outcome, ok, err, fault,
  Error, eagain, leb, ◌==◌, subst, ap₂,
}
use nperf.Config.{ExchangeFunction, IoModel, select, poll}
use nperf.Config.Floats.{Floats}
use nperf.Net.Header.{MessageType}
use nperf.Net.Socket
use nperf.Net.Socket.{Answer, returned, failed}
use nperf.Buffer.PacketBuffer.Ids.{AllFilled}
use nperf.Statistic.{Statistic}
use nperf.Node.Interval.{Clocks, as_secs, elapsed}
use nperf.Node.Sender.{Sender, send_messages, io_wait}
use nperf.Node.Sender.Ids.{datagrams, Sends, sent, later, aborted, send_messages-Sends}
use nperf.Node.Sender.Frames.{Frames, KeepsHeaders-length, send_messages-Frames}
use nperf.Node.Sender.Run.{
  Round, count_syscall, count_eagain, after_send, check_interval, send_round, send_loop,
}
use nperf.Node.Sender.Run.Accounts.{
  counted, IsLoaded, IsLoaded-Checked, Kernel, Kernels, IsAccounted, check_interval-Checked,
  check_interval-IsAccounted,
}

abbrev Waited : Outcome (Unit {0}) → Type 0
Waited o = (o ≡ ok tt) ⊎ ((e : Error) × (o ≡ err e))

if-Waited : (b : Bool) (e : Error) → Waited (if b then err e else ok tt)
if-Waited true e = inr (e, refl)
if-Waited false e = inl refl

-- `select` and `poll` do not panic.
pub io_wait-Waited : (m : IoModel) (a : Answer) → Waited (io_wait m a)
unfolding io_wait Socket.select Socket.poll
io_wait-Waited select (returned n) = if-Waited (n == 0) _
io_wait-Waited select (failed n) = inr (_, refl)
io_wait-Waited poll (returned n) = if-Waited (n == 0) _
io_wait-Waited poll (failed n) = inr (_, refl)
io_wait-Waited _ a = inl refl

after_send_aborted :
    (m : IoModel) (ready : Answer) (e : Error) (x : Sender)
    → e ≢ eagain
    → after_send m ready (err e, x) ≡ (err e, x)
after_send_aborted m ready eagain x n = absurd (n refl)
after_send_aborted m ready _ x n = refl

module _ (fl : Floats) (kind : MessageType) (t count : ℕ) (e : ExchangeFunction)
    (per size : ℕ) where
  -- Ready for the next pass, with at most `used` ids given out.
  pub record IsSending (used : ℕ) (s : Sender) : Type 0 where
    pub loaded : IsLoaded kind t count e per size s
    pub accounted : IsAccounted fl s
    pub ids : s.next_packet_id ≤ used

  -- A pass that goes on leaves the sender ready, and used at most the ids of all its datagrams.
  pub data Passes (used : ℕ) : Outcome (Unit {0}) → Sender → Type 0 where
    goes : (x : Sender) → IsSending (used + count * per) x → Passes used (ok tt) x
    stops : (e : Error) (x : Sender) → Passes used (err e) x

  IsLoaded-Frames :
      (s x : Sender)
      → Frames kind t s x
      → IsLoaded kind t count e per size s
      → IsLoaded kind t count e per size x
  IsLoaded-Frames s x f l = rw f.only (record {
    function = l.function;
    some_buffer = l.some_buffer;
    few = l.few;
    buffers = f.as_many ∙ l.buffers;
    packets = l.packets;
    sizes = l.sizes;
    filled =
        subst (λ a. AllFilled a size kind t f.messages) l.packets
          (subst (λ b. AllFilled s.packet_buffer.packets_amount_per_msghdr b kind t f.messages)
            l.sizes f.filled);
  })

  IsAccounted-moved :
      (s x : Sender) (d : ℕ)
      → x.statistic_interval ≡ s.statistic_interval
      → x.statistic.amount_datagrams ≡ s.statistic.amount_datagrams + d
      → x.next_packet_id ≡ s.next_packet_id + d
      → IsAccounted fl s
      → IsAccounted fl x
  IsAccounted-moved s x d v a n h =
      let c : counted x ≡ counted s + d = rw v (omega arith) in
      record {
        bound = omega (arith, h.bound);
        exact = elim h.exact [ inl q ↦ inl (omega arith) | inr q ↦ inr (rw v q) ];
        bare = elim h.bare [ inl q ↦ inl (rw v q) | inr q ↦ inr (rw v q) ];
      }

  -- After a sending call that is no failure; `y` is `x` with other counters.
  IsSending-after :
      (used d : ℕ) (s x : Sender) (st : Statistic)
      → IsSending used s
      → Frames kind t s x
      → d ≤ datagrams s.packet_buffer
      → x.next_packet_id ≡ s.next_packet_id + d
      → st.amount_datagrams ≡ s.statistic.amount_datagrams + d
      → IsSending (used + count * per) (record x { statistic = st })
  IsSending-after used d s x st h f few n a =
      let amount : datagrams s.packet_buffer ≡ count * per =
        ap₂ (λ a b. a * b) h.loaded.buffers h.loaded.packets in
      record {
        loaded =
            IsLoaded-Checked fl kind t count e per size x _ refl (IsLoaded-Frames s x f h.loaded);
        accounted =
            IsAccounted-moved s (record x { statistic = st }) d
              (ap (λ y. y.statistic_interval) f.only) a n h.accounted;
        ids = omega (arith, h.ids);
      }

  -- After a sending call, from its result.
  after_send-Passes :
      (m : IoModel) (ready : Answer) (used : ℕ) (s : Sender) (o : Outcome (Unit {0})) (x : Sender)
      → IsSending used s
      → Sends s o x
      → Frames kind t s x
      → let r = after_send m ready (o, x) in Passes used r.0 r.1
  after_send-Passes m ready used s o x h (sent y d few n a) f =
      goes _ (IsSending-after used d s y (count_syscall y).statistic h f few n a)
  after_send-Passes m ready used s o x h (later y n a) f = elim (io_wait-Waited m ready) [
    | inl w ↦ rw w (
        goes _ (
          IsSending-after used 0 s y (count_syscall (count_eagain y)).statistic h f (omega arith)
            (omega arith) (ap (λ z. z.amount_datagrams) a ∙ omega arith)))
    | inr (z, w) ↦ rw w (stops z _)
  ]
  after_send-Passes m ready used s o x h (aborted y z ne) f =
      rw (after_send_aborted m ready z y ne) (stops z y)

  pub check_interval-IsSending :
      (c : Clocks) (used : ℕ) (s : Sender)
      → IsSending used s
      → IsSending used (check_interval fl c s)
  check_interval-IsSending c used s h =
      let k = check_interval-Checked fl c s in
      record {
        loaded = IsLoaded-Checked fl kind t count e per size s _ k h.loaded;
        accounted = check_interval-IsAccounted fl c s h.accounted;
        ids = rw k h.ids;
      }

  pub send_messages-Passes :
      (m : IoModel) (r : Round) (used : ℕ) (s : Sender)
      → IsSending used s
      → used + count * per < 2 ^ 64
      → Kernel count e r
      → let x = after_send m r.ready (send_messages r.answer r.wrote s) in Passes used x.0 x.1
  send_messages-Passes m r used s h room (keeps, few) =
      let l = h.loaded in
      let amount : datagrams s.packet_buffer ≡ count * per =
        ap₂ (λ a b. a * b) l.buffers l.packets in
      let filled =
        subst (λ a. AllFilled a s.packet_buffer.datagram_size kind t s.packet_buffer.mmsghdr_vec)
          (sym l.packets)
          (subst (λ b. AllFilled per b kind t s.packet_buffer.mmsghdr_vec) (sym l.sizes)
            l.filled) in
      after_send-Passes m r.ready used s _ _ h
        (send_messages-Sends kind t r.answer r.wrote s (omega (arith, l.buffers, l.some_buffer))
          filled (omega (arith, h.ids)) (omega (arith, h.ids, h.accounted.bound))
          (omega (arith, l.buffers, l.few)) (KeepsHeaders-length r.wrote keeps)
          (λ n g a. omega (arith, few n (sym l.function ∙ g) a, l.buffers)))
        (send_messages-Frames kind t r.answer r.wrote s filled (omega (arith, h.ids)) keeps)

  -- How the loop ends: still running with the next ids in hand, at the end of the time, or by an error
  -- of the socket; never by a panic.
  pub data LoopEnds : Option (Outcome (Unit {0})) → Sender → Type 0 where
    running : (x : Sender) → IsAccounted fl x → LoopEnds none x
    over : (x : Sender) → IsAccounted fl x → LoopEnds (some (ok tt)) x
    broken : (z : Error) (x : Sender) → LoopEnds (some (err z)) x

  -- The loop of a sender that starts with its counters in step with its ids never panics, and where
  -- it stops without an error, or has not stopped, no datagram was counted twice, and the datagrams
  -- counted in the kept intervals and since are exactly the ids given out, unless the planned
  -- intervals are over. Every buffer holds headers of one test, the kernel leaves the headers alone
  -- and sends no more messages than given, and the ids of all passes stay below 2^64.
  pub send_loop-LoopEnds :
      (m : IoModel) (start used : ℕ) (rs : List Round) (s : Sender)
      → IsSending used s
      → used + length rs * (count * per) < 2 ^ 64
      → Kernels count e rs
      → let r = send_loop fl m start rs s in LoopEnds r.0 r.1
  unfolding send_loop send_round
  send_loop-LoopEnds m start used [] s h room k = running s h.accounted
  send_loop-LoopEnds m start used (r ∷ rs) s h room (k, ks) =
      elim (Bool-cases (leb s.run_time_length (as_secs (elapsed start r.clocks.test)))) [
        | inl b ↦ rw b (over s h.accounted)
        | inr b ↦ rw b (
            after _ _
              (send_messages-Passes m r used (check_interval fl r.clocks s)
                (check_interval-IsSending r.clocks used s h) (omega arith) k)
              (λ x h'. send_loop-LoopEnds m start (used + count * per) rs x h' (omega arith) ks))
      ]
    where
      after :
          (o : Outcome (Unit {0})) (x : Sender)
          → Passes used o x
          → ((x : Sender)
              → IsSending (used + count * per) x
              → let r = send_loop fl m start rs x in LoopEnds r.0 r.1)
          → let r : Option (Outcome (Unit {0})) × Sender = elim o [
            | ok u ↦ send_loop fl m start rs x
            | err e ↦ (some (err e), x)
            | fault z ↦ (some (fault z), x)
          ] in
            LoopEnds r.0 r.1
      after o x (goes y h') rest = rest y h'
      after o x (stops z y) rest = broken z y
