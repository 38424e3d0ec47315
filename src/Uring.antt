-- ===== src/Uring.antt =====
-- src/io_uring: how many requests a loop submits and what it makes of the kernel's answers. The
-- crate io_uring and the kernel are not modelled: what they answer at a call is an argument.
use nperf.Base.{
  ℕ, zero, suc, ◌+◌, ◌-◌, ◌/◌, ◌%◌, Bool, true, false, ◌||◌, ◌&&◌, not, Option, none, some, ltb,
  ◌==◌, if◌then◌else◌, sub32, sub64, u32_mod, ℤ, pos, negsuc, Outcome, ok, err, Error, eagain,
  failed_to_receive_data, io_uring_error, failed_to_create_io_uring, recvmsg_multi_not_supported,
  provide_buffers_not_supported, sendmsg_zc_not_supported, ◌>>=◌, ◌>>◌,
}
use nperf.Config.{
  UringParameter, UringSqFillingMode, topup, topup_no_wait, syscall, UringTaskWork, coop, defer,
  coop_defer, UringMode, multishot, provided_buffer, zerocopy, is_topup_no_wait,
  uring_burst_size_dividend,
}
pub mod FillMode
pub mod Submit
pub mod Modes

-- What the code reads of a ring before it submits.
pub record RingView : Type 0 where
  pub cq_empty : Bool
  pub sq_capacity : ℕ
  pub sq_len : ℕ

-- `parameter.burst_size`, or a default where it is zero.
unfoldable pub burst_or_default : UringParameter → ℕ
burst_or_default p =
    if p.burst_size == 0 then p.ring_size / uring_burst_size_dividend else p.burst_size

unfoldable pub to_submit_of : UringSqFillingMode → ℕ → UringParameter → RingView → ℕ
to_submit_of syscall amount_inflight p ring = if amount_inflight == 0 then p.burst_size else 0
to_submit_of topup amount_inflight p ring =
    let sq_entries_left = sub64 ring.sq_capacity ring.sq_len % u32_mod in
    let buffers_left = sub32 p.buffer_size amount_inflight in
    if ltb buffers_left sq_entries_left then buffers_left else sq_entries_left
to_submit_of topup_no_wait amount_inflight p ring =
    let sq_entries_left = sub64 ring.sq_capacity ring.sq_len % u32_mod in
    let buffers_left = sub32 p.buffer_size amount_inflight in
    if ltb buffers_left sq_entries_left then buffers_left else sq_entries_left

-- The requests to submit, and the completions to wait for.
unfoldable pub calc_sq_fill_mode : ℕ → UringParameter → RingView → ℕ × ℕ
unfolding burst_or_default to_submit_of
calc_sq_fill_mode amount_inflight p ring =
    if ltb (sub32 p.buffer_size p.burst_size) amount_inflight
    then (if ring.cq_empty then (0, burst_or_default p) else (0, 0))
    else (
      to_submit_of p.sq_filling_mode amount_inflight p ring,
      if p.sqpoll || is_topup_no_wait p.sq_filling_mode then 0 else p.burst_size,
    )

-- -105 is ENOBUFS, -11 EAGAIN, -90 EMSGSIZE.
unfoldable pub parse_received_bytes : ℤ → Outcome ℕ
parse_received_bytes (pos n) = ok 1
parse_received_bytes (negsuc n) =
    if n == 104
    then ok 0
    else if n == 10
    then err eagain
    else if n == 89
    then ok 0
    else err failed_to_receive_data

-- The kernel's answer to a submission: the number of entries, or an error number.
pub data SubmitResult : Type 0 where
  submitted : ℕ → SubmitResult
  os_error : ℕ → SubmitResult

pub record Submitter : Type 0 where
  pub submit_and_wait : ℕ → SubmitResult
  pub submit_with_args : ℕ → ℕ → SubmitResult

-- EBUSY is 16, ETIME 62.
unfoldable pub enter_result : SubmitResult → Outcome ℕ
enter_result (submitted n) = ok 0
enter_result (os_error e) = if e == 16 then ok 1 else if e == 62 then ok 0 else err io_uring_error

unfoldable pub io_uring_enter : Submitter → ℕ → ℕ → Outcome ℕ
unfolding enter_result
io_uring_enter s timeout min_complete = enter_result (
    if timeout == 0
    then s.submit_and_wait min_complete
    else s.submit_with_args min_complete timeout)

-- `more` is `cqueue::more` of the crate, the test for the flag IORING_CQE_F_MORE.
unfoldable pub check_multishot_status : (ℕ → Bool) → ℕ → Bool
check_multishot_status more flags = if not (more flags) then false else true

-- What the builder of a ring is told.
pub record RingSetup : Type 0 where
  pub cqsize : ℕ
  pub single_issuer : Bool
  pub coop_taskrun : Bool
  pub defer_taskrun : Bool
  pub sqpoll_timeout : Option ℕ
  pub attach_wq : Option ℕ
  pub sqpoll_cpu : Option ℕ

abbrev pub uring_sq_poll_timeout : ℕ
uring_sq_poll_timeout = 2000

abbrev pub uring_sqpoll_cpu : ℕ
uring_sqpoll_cpu = 0

abbrev is_coop : UringTaskWork → Bool
is_coop coop = true
is_coop coop_defer = true
is_coop _ = false

abbrev is_defer : UringTaskWork → Bool
is_defer defer = true
is_defer coop_defer = true
is_defer _ = false

unfoldable pub ring_setup : UringParameter → Option ℕ → RingSetup
ring_setup p io_uring_fd = record {
  cqsize = p.buffer_size;
  single_issuer = true;
  coop_taskrun = is_coop p.task_work;
  defer_taskrun = is_defer p.task_work;
  sqpoll_timeout = if p.sqpoll then some uring_sq_poll_timeout else none;
  attach_wq = if p.sqpoll then io_uring_fd else none;
  sqpoll_cpu =
      if p.sqpoll then elim io_uring_fd [ none ↦ some uring_sqpoll_cpu | some fd ↦ none ] else none;
}

-- What a probe of the kernel says: none if the probe itself is not supported.
pub record Probe : Type 0 where
  pub recvmsg_multi : Bool
  pub provide_buffers : Bool
  pub sendmsg_zc : Bool

unfoldable pub check_mode : UringMode → Probe → Outcome (Unit {0})
check_mode multishot probe =
    if not probe.recvmsg_multi
    then err recvmsg_multi_not_supported
    else if not probe.provide_buffers
    then err provide_buffers_not_supported
    else ok tt
check_mode provided_buffer probe =
    if not probe.provide_buffers then err provide_buffers_not_supported else ok tt
check_mode zerocopy probe = if not probe.sendmsg_zc then err sendmsg_zc_not_supported else ok tt
check_mode UringMode.normal probe = ok tt

unfoldable pub check_io_uring_features_available :
    Option Probe → UringParameter → Outcome (Unit {0})
unfolding check_mode
check_io_uring_features_available none p = ok tt
check_io_uring_features_available (some probe) p = check_mode p.uring_mode probe

-- `build` is the crate's call into the kernel: whether it makes a ring of this size and setup, and
-- `probe` what the new ring's probe says.
unfoldable pub create_ring :
    (RingSetup → ℕ → Bool) → Option Probe → UringParameter → Option ℕ → Outcome RingSetup
unfolding ring_setup check_io_uring_features_available
create_ring build probe p io_uring_fd =
    let setup = ring_setup p io_uring_fd in
    if build setup p.ring_size
    then (check_io_uring_features_available probe p >> ok setup)
    else err failed_to_create_io_uring
