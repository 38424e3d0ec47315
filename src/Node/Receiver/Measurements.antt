-- ===== src/Node/Receiver/Measurements.antt =====
-- `parse_message_type` and `all_measurements_finished` of src/node/receiver.rs: the measurements
-- of one thread, one for each test id.
use nperf.Base.{
  ℕ, ◌+◌, ◌-◌, Bool, true, false, ◌&&◌, not, List, [], ◌∷◌, ◌++◌, Option, none, some, leb,
  if◌then◌else◌, get_elem?, set, length, replicate, Outcome, ok, err, fault, Fault, panicked, Error,
  test_id_too_big, init_message_received, last_message_received,
}
use nperf.Config.{Parameter, max_test_id, wait_control_message}
use nperf.Config.Floats.{F64, Floats}
use nperf.Net.Header.{MessageType, init, measurement, last}
use nperf.Statistic.{
  Statistic, Measurement, new_measurement, set_start_timestamp, set_test_duration,
  calculate_statistics, set_end_timestamp,
}
pub mod Arrivals

-- `measurements.resize(test_id + 1, Measurement::new(parameter))` if there are not as many.
unfoldable pub resize : ℕ → Parameter → F64 → List Measurement → List Measurement
unfolding new_measurement
resize test_id parameter now ms =
    if leb (length ms) test_id
    then ms ++ replicate (test_id + 1 - length ms) (new_measurement parameter now)
    else ms

-- The timer starts with the first message of a measurement.
unfoldable pub first_packet : F64 → Measurement → Measurement
unfolding set_start_timestamp
first_packet now m = if m.first_packet_received then m else record m {
  start_time = now;
  statistic = set_start_timestamp (some now) now m.statistic;
  first_packet_received = true;
}

module _ (fl : Floats) where
  -- The clock is read twice in a row, here once.
  unfoldable pub last_packet : F64 → Measurement → Measurement
  unfolding set_test_duration calculate_statistics set_end_timestamp
  last_packet now m =
      let end_time = fl.sub now (fl.div (fl.of_u64 wait_control_message) (fl.of_u64 1000)) in
      let timed = set_test_duration fl (some m.start_time) (some end_time) m.statistic in
      record m {
        last_packet_received = true;
        statistic = set_end_timestamp now (calculate_statistics fl timed);
      }

  -- The result, and the measurements afterwards.
  unfoldable pub parse_message_type :
      MessageType → ℕ → F64 → Parameter → List Measurement → Outcome (Unit {0}) × List Measurement
  unfolding resize first_packet last_packet
  parse_message_type mtype test_id now parameter ms =
      if leb max_test_id test_id then (err test_id_too_big, ms) else elim mtype [
        | init ↦ (err init_message_received, resize test_id parameter now ms)
        | measurement ↦
            let resized = resize test_id parameter now ms in
            elim (get_elem? resized test_id) [
              | none ↦ (fault panicked, resized)
              | some m ↦ (ok tt, set resized test_id (first_packet now m))
            ]
        | last ↦ elim (get_elem? ms test_id) [
          | none ↦ (fault panicked, ms)
          | some m ↦ (err last_message_received, set ms test_id (last_packet now m))
        ]
      ]

unfoldable pub all_measurements_finished : List Measurement → Bool
all_measurements_finished [] = true
all_measurements_finished (m ∷ ms) =
    let rest = all_measurements_finished ms in
    if not m.last_packet_received && m.first_packet_received then false else rest
