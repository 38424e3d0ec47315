-- ===== src/Statistic/Print.antt =====
-- `Statistic::print` of src/util/statistic.rs. A printed line is the list of its parts, with the width and
-- the precision that the format string gives; how a float is rounded to it is not modelled.
pub mod Output
pub mod Rows
pub mod Panics
pub mod Serialized
use Prim.Native.String.{String}
use nperf.Base.{
  ℕ, ◌/◌, ◌==◌, Bool, true, false, not, List, [], ◌∷◌, ◌++◌, map, Option, none, some, if◌then◌else◌,
  Outcome, ok, fault, panicked, ◌>>◌,
}
use nperf.Config.{Parameter, UringParameter, is_io_uring}
use nperf.Config.Floats.{F64, zero_f64, Floats}
use nperf.Statistic.{Statistic}
use nperf.Statistic.Utilization.{enumerate_from, filter_used}

-- A part of a line: a text, an unsigned number or a float with its least width, or a number from its two's
-- complement pattern.
pub data Piece : Type 0 where
  words : String → Piece
  number : ℕ → ℕ → Piece
  signed : ℕ → Piece
  fixed : ℕ → ℕ → F64 → Piece

abbrev pub Line : Type 0
Line = List Piece

-- Lines, and whether the thread goes on.
abbrev pub Lines : Type 0
Lines = List Line × Outcome (Unit {0})

-- The next lines, unless the ones before ended in a panic.
abbrev pub and_lines : Lines → Lines → Lines
and_lines (ls, ok u) (ms, o) = (ls ++ ms, o)
and_lines (ls, o) ms = (ls, o)

-- `println!("text{}", n)`
abbrev pub counted : String → ℕ → Line
counted label n = words label ∷ number 0 n ∷ []

abbrev pub rule : Line
rule = words "------------------------" ∷ []

-- The entries of an array but those of 0 and 1, after their title; an array that is not there is a panic.
unfoldable pub utilization_lines : String → String → Option (List ℕ) → Lines
unfolding enumerate_from filter_used
utilization_lines title label none = ((words title ∷ []) ∷ [], fault panicked)
utilization_lines title label (some slots) = (
  (words title ∷ [])
        ∷ map
            (λ (e : ℕ × ℕ).
              words label ∷ words "[" ∷ number 0 e.0 ∷ words "]: " ∷ number 0 e.1 ∷ [])
            (filter_used (enumerate_from 0 slots))
      ++ ([] ∷ []),
  ok tt,
)

unfoldable pub uring_lines : Statistic → Lines
unfolding utilization_lines
uring_lines s =
    and_lines
      (
        (words "Io-Uring" ∷ [])
            ∷ rule
            ∷ counted "CQ overflows: " s.uring_cq_overflows
            ∷ counted "Out of provided buffers: " s.uring_out_of_buffers
            ∷ counted "Copied zero-copy: " s.uring_copied_zc
            ∷ counted "Amount canceled multishot operations: " s.uring_canceled_multishot
            ∷ [],
        ok tt,
      )
      (if s.parameter.uring_parameter.record_utilization
        then and_lines (utilization_lines "Uring SQ utilization:" "SQ" s.uring_sq_utilization) (
            and_lines (utilization_lines "Uring CQ utilization:" "CQ" s.uring_cq_utilization) (
              utilization_lines "Uring Inflight utilization:" "Inflight"
                s.uring_inflight_utilization))
        else ([], ok tt))

module _ (fl : Floats) where
  unfoldable pub interval_line : Statistic → Line
  interval_line s =
      let interval_timestamp = fl.mul (fl.of_u64 s.interval_id) s.parameter.output_interval in
      words "["
      ∷ number 3 s.interval_id
      ∷ words "] "
      ∷ fixed 2 2 (
          if fl.feq interval_timestamp zero_f64
          then zero_f64
          else fl.sub interval_timestamp s.parameter.output_interval)
      ∷ words "-"
      ∷ fixed 2 2 interval_timestamp
      ∷ words " sec  "
      ∷ fixed 0 2 s.total_data_gbyte
      ∷ words " GBytes  "
      ∷ fixed 0 2 s.data_rate_gbit
      ∷ words " Gbits/sec  "
      ∷ signed s.amount_omitted_datagrams
      ∷ words "/"
      ∷ number 0 s.amount_datagrams
      ∷ words " ("
      ∷ fixed 0 1 s.packet_loss
      ∷ words "%)"
      ∷ []

  unfoldable pub summary_lines : Statistic → List Line
  summary_lines s =
      rule
      ∷ (words "Summary Measurement" ∷ [])
      ∷ rule
      ∷ (words "Total time: " ∷ fixed 0 2 s.test_duration ∷ words "s" ∷ [])
      ∷ (words "Total data: " ∷ fixed 0 2 s.total_data_gbyte ∷ words " GiBytes" ∷ [])
      ∷ (words "Data rate: "
          ∷ fixed 0 2 (fl.div s.data_rate_gbit (fl.of_u64 8))
          ∷ words " GiBytes/s / "
          ∷ fixed 0 2 s.data_rate_gbit
          ∷ words " Gibit/s"
          ∷ [])
      ∷ (words "Packet loss: " ∷ fixed 0 2 s.packet_loss ∷ words "%" ∷ [])
      ∷ rule
      ∷ (words "CPU user space: " ∷ fixed 0 2 s.cpu_user_time ∷ words "%" ∷ [])
      ∷ (words "CPU system space: " ∷ fixed 0 2 s.cpu_system_time ∷ words "%" ∷ [])
      ∷ (words "CPU total: " ∷ fixed 0 2 s.cpu_total_time ∷ words "%" ∷ [])
      ∷ counted "Threads used: " s.parameter.amount_threads
      ∷ rule
      ∷ counted "Amount of datagrams: " s.amount_datagrams
      ∷ counted "Amount of reordered datagrams: " s.amount_reordered_datagrams
      ∷ counted "Amount of duplicated datagrams: " s.amount_duplicated_datagrams
      ∷ (words "Amount of omitted datagrams: " ∷ signed s.amount_omitted_datagrams ∷ [])
      ∷ counted "Amount of syscalls: " s.amount_syscalls
      ∷ counted "Amount of datagrams per syscall: "
          (if not (s.amount_syscalls == 0) then s.amount_datagrams / s.amount_syscalls else 0)
      ∷ counted "Amount of IO model syscalls: " s.amount_io_model_calls
      ∷ counted "Amount of received EAGAIN errors: " s.amount_eagain
      ∷ rule
      ∷ []

  unfoldable pub print_text : Bool → Statistic → Lines
  unfolding interval_line summary_lines uring_lines
  print_text true s = (interval_line s ∷ [], ok tt)
  print_text false s =
      and_lines (summary_lines s, ok tt)
        (if is_io_uring s.parameter.io_model then uring_lines s else ([], ok tt))
