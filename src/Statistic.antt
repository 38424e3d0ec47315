-- ===== src/Statistic.antt =====
-- src/util/statistic.rs: the counters of a measurement, their sum, and the statistics of the
-- intervals. Times are arguments: an instant in nanoseconds, a Unix time as an f64.
pub mod Counters
pub mod Interval
pub mod Kept
pub mod Print
pub mod Utilization
use nperf.Base.{
  ℕ, ◌+◌, ◌*◌, ◌%◌, zero, suc, Bool, true, false, List, [], ◌∷◌, ◌++◌, Option, none, some, max,
  if◌then◌else◌, add64, get_elem?, length, replicate, Outcome, ok, err, fault, Fault, panicked,
  ◌>>=◌,
}
use nperf.Config.{Parameter, UringParameter, uring_max_ring_size, uring_buffer_size_multiplicator}
use nperf.Config.Floats.{F64, zero_f64, Floats}

pub record Statistic : Type 0 where
  pub parameter : Parameter
  pub start_timestamp : F64
  pub end_timestamp : F64
  pub test_duration : F64
  pub interval_id : ℕ
  pub total_data_gbyte : F64
  pub amount_datagrams : ℕ
  pub amount_data_bytes : ℕ
  pub amount_reordered_datagrams : ℕ
  pub amount_duplicated_datagrams : ℕ
  pub amount_omitted_datagrams : ℕ
  pub amount_syscalls : ℕ
  pub amount_io_model_calls : ℕ
  pub amount_eagain : ℕ
  pub data_rate_gbit : F64
  pub packet_loss : F64
  pub cpu_user_time : F64
  pub cpu_system_time : F64
  pub cpu_total_time : F64
  pub uring_cq_overflows : ℕ
  pub uring_out_of_buffers : ℕ
  pub uring_copied_zc : ℕ
  pub uring_canceled_multishot : ℕ
  pub uring_sq_utilization : Option (List ℕ)
  pub uring_cq_utilization : Option (List ℕ)
  pub uring_inflight_utilization : Option (List ℕ)

-- `vec![0; n]`, for the arrays of some thousand entries.
unfoldable pub zeros : ℕ → List ℕ
zeros n = replicate n 0

abbrev pub sq_slots : ℕ
sq_slots = uring_max_ring_size + 1

abbrev pub cq_slots : ℕ
cq_slots = uring_max_ring_size * 2 + 1

abbrev pub inflight_slots : ℕ
inflight_slots = uring_max_ring_size * uring_buffer_size_multiplicator + 1

unfoldable pub new : Parameter → F64 → Statistic
new parameter now = record {
  parameter = parameter;
  start_timestamp = now;
  end_timestamp = zero_f64;
  test_duration = zero_f64;
  interval_id = 0;
  total_data_gbyte = zero_f64;
  amount_datagrams = 0;
  amount_data_bytes = 0;
  amount_reordered_datagrams = 0;
  amount_duplicated_datagrams = 0;
  amount_omitted_datagrams = 0;
  amount_syscalls = 0;
  amount_io_model_calls = 0;
  amount_eagain = 0;
  data_rate_gbit = zero_f64;
  packet_loss = zero_f64;
  cpu_user_time = zero_f64;
  cpu_system_time = zero_f64;
  cpu_total_time = zero_f64;
  uring_cq_overflows = 0;
  uring_out_of_buffers = 0;
  uring_copied_zc = 0;
  uring_canceled_multishot = 0;
  uring_sq_utilization = if recorded then some (zeros sq_slots) else none;
  uring_cq_utilization = if recorded then some (zeros cq_slots) else none;
  uring_inflight_utilization = if recorded then some (zeros inflight_slots) else none;
}
  where
    recorded : Bool
    recorded = parameter.uring_parameter.record_utilization

-- for i in 0..n: the sum of the entries at i; an entry that is not there is a panic.
unfoldable pub add_slots : ℕ → List ℕ → List ℕ → Outcome (List ℕ)
add_slots zero xs ys = ok []
add_slots (suc n) [] ys = fault panicked
add_slots (suc n) (x ∷ xs) [] = fault panicked
add_slots (suc n) (x ∷ xs) (y ∷ ys) = add_slots n xs ys >>= λ rest. ok (add64 x y ∷ rest)

-- `unwrap` of both arrays, and their sum.
unfoldable pub add_utilization : ℕ → Option (List ℕ) → Option (List ℕ) → Outcome (List ℕ)
add_utilization n none other = fault panicked
add_utilization n (some xs) none = fault panicked
add_utilization n (some xs) (some ys) = add_slots n xs ys

module _ (fl : Floats) where
  -- The average of two rates, unless one is zero.
  unfoldable pub average : F64 → F64 → F64
  average a b =
      if fl.feq a zero_f64
      then b
      else if fl.feq b zero_f64
      then a
      else fl.div (fl.add a b) (fl.of_u64 2)

  -- The sum but for the three arrays.
  unfoldable pub add_scalars :
      Statistic → Statistic → Option (List ℕ) → Option (List ℕ) → Option (List ℕ) → Statistic
  add_scalars a b sq cq inflight = record {
    parameter = a.parameter;
    start_timestamp = fl.fmin a.start_timestamp b.start_timestamp;
    end_timestamp = fl.fmax a.end_timestamp b.end_timestamp;
    test_duration = fl.fmax a.test_duration b.test_duration;
    interval_id = max a.interval_id b.interval_id;
    total_data_gbyte = fl.add a.total_data_gbyte b.total_data_gbyte;
    amount_datagrams = add64 a.amount_datagrams b.amount_datagrams;
    amount_data_bytes = add64 a.amount_data_bytes b.amount_data_bytes;
    amount_reordered_datagrams = add64 a.amount_reordered_datagrams b.amount_reordered_datagrams;
    amount_duplicated_datagrams = add64 a.amount_duplicated_datagrams b.amount_duplicated_datagrams;
    amount_omitted_datagrams = add64 a.amount_omitted_datagrams b.amount_omitted_datagrams;
    amount_syscalls = add64 a.amount_syscalls b.amount_syscalls;
    amount_io_model_calls = add64 a.amount_io_model_calls b.amount_io_model_calls;
    amount_eagain = add64 a.amount_eagain b.amount_eagain;
    data_rate_gbit = average a.data_rate_gbit b.data_rate_gbit;
    packet_loss = average a.packet_loss b.packet_loss;
    cpu_user_time = zero_f64;
    cpu_system_time = zero_f64;
    cpu_total_time = zero_f64;
    uring_cq_overflows = add64 a.uring_cq_overflows b.uring_cq_overflows;
    uring_out_of_buffers = add64 a.uring_out_of_buffers b.uring_out_of_buffers;
    uring_copied_zc = add64 a.uring_copied_zc b.uring_copied_zc;
    uring_canceled_multishot = add64 a.uring_canceled_multishot b.uring_canceled_multishot;
    uring_sq_utilization = sq;
    uring_cq_utilization = cq;
    uring_inflight_utilization = inflight;
  }

  unfoldable pub add : Statistic → Statistic → Outcome Statistic
  unfolding add_scalars
  add a b = elim a.parameter.uring_parameter.record_utilization [
    | false ↦ ok (add_scalars a b none none none)
    | true ↦ do
      sq ← add_utilization sq_slots a.uring_sq_utilization b.uring_sq_utilization
      cq ← add_utilization cq_slots a.uring_cq_utilization b.uring_cq_utilization
      inflight ←
          add_utilization inflight_slots a.uring_inflight_utilization b.uring_inflight_utilization
      ok (add_scalars a b (some sq) (some cq) (some inflight))
  ]

  -- `iter().fold(statistic, |acc, x| acc + x)`
  unfoldable pub sum_from : Statistic → List Statistic → Outcome Statistic
  sum_from acc [] = ok acc
  sum_from acc (s ∷ ss) = add acc s >>= λ acc'. sum_from acc' ss

  unfoldable pub calculate_total_data : Statistic → F64
  calculate_total_data s =
      fl.div (fl.div (fl.div (fl.of_u64 s.amount_data_bytes) (fl.of_u64 1024)) (fl.of_u64 1024))
        (fl.of_u64 1024)

  unfoldable pub calculate_data_rate : Statistic → F64
  calculate_data_rate s = fl.mul (fl.div s.total_data_gbyte s.test_duration) (fl.of_u64 8)

  unfoldable pub calculate_packet_loss : Statistic → F64
  calculate_packet_loss s =
      fl.mul (fl.div (fl.of_i64 s.amount_omitted_datagrams) (fl.of_u64 s.amount_datagrams))
        (fl.of_u64 100)

  -- The rate is computed from the total of this very call.
  unfoldable pub calculate_statistics : Statistic → Statistic
  unfolding calculate_total_data calculate_data_rate calculate_packet_loss
  calculate_statistics s =
      let t = record s { total_data_gbyte = calculate_total_data s } in
      let r = record t { data_rate_gbit = calculate_data_rate t } in
      record r { packet_loss = calculate_packet_loss r }

  unfoldable pub set_test_duration : Option F64 → Option F64 → Statistic → Statistic
  set_test_duration start_time end_time s =
      let start : F64 = elim start_time [ none ↦ s.start_timestamp | some t ↦ t ] in
      let finish : F64 = elim end_time [ none ↦ s.end_timestamp | some t ↦ t ] in
      record s {
        start_timestamp = start;
        end_timestamp = finish;
        test_duration = fl.sub finish start;
      }

unfoldable pub set_start_timestamp : Option F64 → F64 → Statistic → Statistic
set_start_timestamp none now s = record s { start_timestamp = now }
set_start_timestamp (some time) now s = record s { start_timestamp = time }

unfoldable pub set_end_timestamp : F64 → Statistic → Statistic
set_end_timestamp now s = record s { end_timestamp = now }

-- What one thread measures.
pub record Measurement : Type 0 where
  pub start_time : F64
  pub end_time : F64
  pub statistic : Statistic
  pub first_packet_received : Bool
  pub last_packet_received : Bool

unfoldable pub new_measurement : Parameter → F64 → Measurement
unfolding new
new_measurement parameter now = record {
  start_time = now;
  end_time = now;
  statistic = new parameter now;
  first_packet_received = false;
  last_packet_received = false;
}
