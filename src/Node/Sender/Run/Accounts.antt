-- ===== src/Node/Sender/Run/Accounts.antt =====
-- The datagrams that a sender has counted over its intervals and the packet ids that it has given
-- out, and what the end of an interval does to them: `Sender::run` of src/node/sender.rs.
use nperf.Base.{
  ℕ, ◌+◌, ◌^◌, ◌≤◌, ◌<◌, ◌≡◌, refl, ◌⊎◌, inl, inr, true, false, List, [], ◌∷◌, arith, length,
  Bool-cases,
}
use nperf.Config.{ExchangeFunction, mmsg}
use nperf.Config.Floats.{F64, zero_f64, Floats}
use nperf.Net.Header.{MessageType}
use nperf.Net.Socket.{returned}
use nperf.Buffer.PacketBuffer.Ids.{AllFilled}
use nperf.Statistic
use nperf.Statistic.{Statistic, set_test_duration, calculate_statistics}
use nperf.Statistic.Interval.{StatisticInterval, finished}
use nperf.Statistic.Kept.{kept, calculate_interval-kept, calculate_interval-finished}
use nperf.Node.Interval.{Clocks, is_due}
use nperf.Node.Sender.{Sender}
use nperf.Node.Sender.Frames.{KeepsHeaders}
use nperf.Node.Sender.Run.Ending.{calculate_interval-output_interval}
use nperf.Node.Sender.Run.{Round, check_interval}

-- The datagrams counted so far.
abbrev pub counted : Sender → ℕ
counted s = kept s.statistic_interval.statistics + s.statistic.amount_datagrams

-- The buffers hold headers of one test, and there are some.
pub record IsLoaded (kind : MessageType) (t count : ℕ) (e : ExchangeFunction) (per size : ℕ)
    (s : Sender) : Type 0 where
  pub function : s.exchange_function ≡ e
  pub some_buffer : 0 < count
  pub few : count < 2 ^ 64
  pub buffers : length s.packet_buffer.mmsghdr_vec ≡ count
  pub packets : s.packet_buffer.packets_amount_per_msghdr ≡ per
  pub sizes : s.packet_buffer.datagram_size ≡ size
  pub filled : AllFilled per size kind t s.packet_buffer.mmsghdr_vec

-- What the kernel does in a pass: it leaves the headers alone, and sends no more than `count` messages.
abbrev pub Kernel : ℕ → ExchangeFunction → Round → Type 0
Kernel count e r = KeepsHeaders r.wrote × ((n : ℕ) → e ≡ mmsg → r.answer ≡ returned n → n ≤ count)

abbrev pub Kernels : ℕ → ExchangeFunction → List Round → Type 0
Kernels count e [] = Unit {0}
Kernels count e (r ∷ rs) = Kernel count e r × Kernels count e rs

module _ (fl : Floats) where
  -- No datagram is counted twice, and none is lost while an interval is still to come or where
  -- there are none.
  pub record IsAccounted (s : Sender) : Type 0 where
    pub bound : counted s ≤ s.next_packet_id
    pub exact :
        (counted s ≡ s.next_packet_id)
        ⊎ ((finished s.statistic_interval ≡ true)
            × (fl.feq s.statistic_interval.output_interval zero_f64 ≡ false))
    pub bare :
        (fl.feq s.statistic_interval.output_interval zero_f64 ≡ false)
        ⊎ (s.statistic_interval.statistics ≡ [])

  -- Between two intervals: the buffers and the ids stay.
  abbrev pub Checked : Sender → Sender → Type 0
  Checked s x = x ≡ record s { statistic = x.statistic; statistic_interval = x.statistic_interval }

  pub IsLoaded-Checked :
      (kind : MessageType) (t count : ℕ) (e : ExchangeFunction) (per size : ℕ) (s x : Sender)
      → Checked s x
      → IsLoaded kind t count e per size s
      → IsLoaded kind t count e per size x
  IsLoaded-Checked kind t count e per size s x c l = rw c (record {
    function = l.function;
    some_buffer = l.some_buffer;
    few = l.few;
    buffers = l.buffers;
    packets = l.packets;
    sizes = l.sizes;
    filled = l.filled;
  })

  is_due-intervals :
      (now : ℕ) (v : StatisticInterval)
      → is_due fl now v ≡ true
      → fl.feq v.output_interval zero_f64 ≡ false
  unfolding is_due
  is_due-intervals now v e = ground arith

  new-amount : (p : _) (now : F64) → (Statistic.new p now).amount_datagrams ≡ 0
  unfolding Statistic.new
  new-amount p now = refl

  pub check_interval-Checked : (c : Clocks) (s : Sender) → Checked s (check_interval fl c s)
  unfolding check_interval
  check_interval-Checked c s = elim (Bool-cases (is_due fl c.due s.statistic_interval)) [
    | inl e ↦ rw e refl
    | inr e ↦ rw e refl
  ]

  pub check_interval-IsAccounted :
      (c : Clocks) (s : Sender) → IsAccounted s → IsAccounted (check_interval fl c s)
  unfolding check_interval finished
  check_interval-IsAccounted c s a = elim (Bool-cases (is_due fl c.due s.statistic_interval)) [
    | inr e ↦ rw e a
    | inl e ↦ elim (Bool-cases (finished s.statistic_interval)) [
      | inl f ↦
          rw
            (
              e,
              calculate_interval-finished fl s.statistic c.call c.call_unix s.statistic_interval f,
            )
            (record {
              bound = omega (arith, new-amount s.parameter c.new_unix, a.bound);
              exact = inr (f, is_due-intervals c.due s.statistic_interval e);
              bare = a.bare;
            })
      | inr f ↦
          let k =
            calculate_interval-kept fl s.statistic c.call c.call_unix s.statistic_interval f in
          rw e (record {
            bound = omega (arith, new-amount s.parameter c.new_unix, k, a.bound);
            exact = elim a.exact [
              | inl q ↦ inl (omega (arith, new-amount s.parameter c.new_unix, k, q))
              | inr g ↦ absurd (cc g.0)
            ];
            bare = inl (
                rw
                  (calculate_interval-output_interval fl s.statistic c.call c.call_unix
                    s.statistic_interval)
                  (is_due-intervals c.due s.statistic_interval e));
          })
    ]
  ]
