-- ===== src/Tests/Receptions.antt =====
-- The theorems on the runs of a receiver at concrete inputs.
use nperf.Base.{ℕ, ◌*◌, ◌≡◌, ◌<◌, ◌⊎◌, refl, [], ◌∷◌, false, arith, ok, length}
use nperf.Net.Socket.{returned, failed}
use nperf.Statistic
use nperf.Statistic.{Measurement, Statistic, new_measurement}
use nperf.Statistic.Interval.{finished}
use nperf.Statistic.Kept.{kept}
use nperf.Node.Interval.{Clocks, nanoseconds}
use nperf.Node.Receiver.Run.{Pass, Running, check_interval, final_statistic}
use nperf.Node.Receiver.Run.Stops.{Stops}
use nperf.Node.Receiver.Run.Datagrams.{
  IsWhole, gathered, current, check_interval-gathered, final_statistic-datagrams,
}
use nperf.Tests.{a_receiver, fresh, parameter, interval, whole, buffers}

abbrev seconds : ℕ → Clocks
seconds n = record {
  test = n * nanoseconds;
  due = n * nanoseconds;
  call = n * nanoseconds;
  call_unix = n;
  new_unix = n;
}

-- Four messages come in, then none does and `poll` times out.
abbrev four_messages : Pass
four_messages = record {
  clocks = seconds 1;
  reception = record { answer = returned 4; wrote = λ xs. buffers.mmsghdr_vec };
  now = 1;
  ready = returned 1;
}

abbrev silence : Pass
silence = record {
  clocks = seconds 1;
  reception = record { answer = failed 11; wrote = λ xs. xs };
  now = 1;
  ready = returned 0;
}

abbrev start : Running
start = record { receiver = a_receiver; statistic = fresh }

-- Three datagrams measured in the interval that ends.
abbrev measured : Measurement
measured = record (new_measurement parameter 0) {
  statistic = record fresh { amount_datagrams = 3 };
}

abbrev measuring : Running
measuring = record start { receiver = record a_receiver { measurements = measured ∷ [] } }

measuring-IsWhole : IsWhole false measuring
unfolding Statistic.new
measuring-IsWhole = record {
  setting = refl;
  own = record { setting = refl; slots = tt };
  measured = (record { setting = refl; slots = tt }, tt);
  intervals = tt;
}

measuring-gathered : gathered measuring ≡ 3
unfolding Statistic.new
measuring-gathered = omega arith

check_interval-gathered_example :
    (y : Running) × (check_interval whole (seconds 4) measuring ≡ ok y)
    × IsWhole false y
    × (gathered y ≡ gathered measuring)
unfolding finished
check_interval-gathered_example =
    check_interval-gathered whole false (seconds 4) measuring measuring-IsWhole refl
      (omega (arith, measuring-gathered))

final_statistic-datagrams_example :
    (st : Statistic) × (final_statistic whole 5 6 measuring ≡ ok st)
    × ((interval.statistics ≡ []) × (st.amount_datagrams ≡ current measuring)
        ⊎ (0 < length interval.statistics) × (st.amount_datagrams ≡ kept interval.statistics))
final_statistic-datagrams_example =
    final_statistic-datagrams whole false 5 6 measuring measuring-IsWhole
      (omega (arith, measuring-gathered))
