-- ===== src/Uring/Modes.antt =====
-- The four instances of a ring, src/io_uring/normal.rs, send.rs, provided_buffer.rs and multishot.rs: what
-- `new` makes, and their statistic. What the kernel answers to the creation is an argument.
pub mod Rooms
use nperf.Base.{
  ℕ, ◌%◌, Bool, Option, none, some, [], if◌then◌else◌, add32, u16_mod, Outcome, ok, fault, panicked,
  ◌>>=◌,
}
use nperf.Config.{
  Parameter, UringParameter, UringMode, zerocopy, provided_buffer, multishot, is_zerocopy,
  uring_additional_buffer_length, length_msghdr_control_message_buffer,
}
use nperf.Config.Floats.{F64}
use nperf.Buffer.Msghdr.{Msghdr, null}
use nperf.Statistic
use nperf.Statistic.{Statistic}
use nperf.Uring.{Probe, RingSetup, create_ring}

-- A ring of buffers that the kernel chooses from.
pub record BufRing : Type 0 where
  pub entries : ℕ
  pub group : ℕ
  pub buffer_length : ℕ

-- Whether the kernel makes a ring of this setup and size, what its probe says, and whether it registers a
-- ring of buffers.
pub record RingMaker : Type 0 where
  pub build : RingSetup → ℕ → Bool
  pub probe : Option Probe
  pub registers : BufRing → Bool

abbrev pub uring_buffer_group : ℕ
uring_buffer_group = 0

-- `expect` on the registration.
unfoldable pub create_buf_ring : RingMaker → ℕ → ℕ → Outcome BufRing
create_buf_ring k buffer_size mss =
    let ring : BufRing = record {
      entries = buffer_size;
      group = uring_buffer_group;
      buffer_length = add32 mss uring_additional_buffer_length;
    } in
    if k.registers ring then ok ring else fault panicked

pub record IoUringNormal : Type 0 where
  pub ring : RingSetup
  pub parameter : UringParameter
  pub statistic : Statistic

pub record IoUringSend : Type 0 where
  pub ring : RingSetup
  pub parameter : UringParameter
  pub zerocopy : Bool
  pub statistic : Statistic

pub record IoUringProvidedBuffer : Type 0 where
  pub ring : RingSetup
  pub buf_ring : BufRing
  pub parameter : UringParameter
  pub msghdr : Msghdr
  pub statistic : Statistic

pub record IoUringMultishot : Type 0 where
  pub ring : RingSetup
  pub buf_ring : BufRing
  pub parameter : UringParameter
  pub msghdr : Msghdr
  pub statistic : Statistic

-- `zeroed`, but for the length of the control messages.
abbrev pub generic_msghdr : Msghdr
generic_msghdr = record {
  msg_name = null;
  iov_base = [];
  iov_len = 0;
  msg_iovlen = 0;
  msg_control = [];
  msg_controllen = length_msghdr_control_message_buffer;
  msg_flags = 0;
}

module _ (k : RingMaker) (now : F64) (p : Parameter) (io_uring_fd : Option ℕ) where
  unfoldable pub new_normal : Outcome IoUringNormal
  new_normal = create_ring k.build k.probe p.uring_parameter io_uring_fd >>= λ ring.
      ok (record { ring = ring; parameter = p.uring_parameter; statistic = Statistic.new p now })

  unfoldable pub new_send : Outcome IoUringSend
  new_send = create_ring k.build k.probe p.uring_parameter io_uring_fd >>= λ ring. ok (record {
    ring = ring;
    parameter = p.uring_parameter;
    zerocopy = is_zerocopy p.uring_parameter.uring_mode;
    statistic = Statistic.new p now;
  })

  unfoldable pub new_provided_buffer : Outcome IoUringProvidedBuffer
  unfolding create_buf_ring
  new_provided_buffer = create_ring k.build k.probe p.uring_parameter io_uring_fd >>= λ ring.
      create_buf_ring k (p.uring_parameter.buffer_size % u16_mod) p.mss >>= λ buf_ring. ok (record {
        ring = ring;
        buf_ring = buf_ring;
        parameter = p.uring_parameter;
        msghdr = generic_msghdr;
        statistic = Statistic.new p now;
      })

  unfoldable pub new_multishot : Outcome IoUringMultishot
  unfolding create_buf_ring
  new_multishot = create_ring k.build k.probe p.uring_parameter io_uring_fd >>= λ ring.
      create_buf_ring k (p.uring_parameter.buffer_size % u16_mod) p.mss >>= λ buf_ring. ok (record {
        ring = ring;
        buf_ring = buf_ring;
        parameter = p.uring_parameter;
        msghdr = generic_msghdr;
        statistic = Statistic.new p now;
      })

-- The trait `IoUringOperatingModes`, over its implementations.
pub data Instance : Type 0 where
  of_normal : IoUringNormal → Instance
  of_send : IoUringSend → Instance
  of_provided_buffer : IoUringProvidedBuffer → Instance
  of_multishot : IoUringMultishot → Instance

unfoldable pub get_statistic : Instance → Statistic
get_statistic (of_normal i) = i.statistic
get_statistic (of_send i) = i.statistic
get_statistic (of_provided_buffer i) = i.statistic
get_statistic (of_multishot i) = i.statistic

unfoldable pub reset_statistic : Parameter → F64 → Instance → Instance
reset_statistic p now (of_normal i) = of_normal (record i { statistic = Statistic.new p now })
reset_statistic p now (of_send i) = of_send (record i { statistic = Statistic.new p now })
reset_statistic p now (of_provided_buffer i) =
    of_provided_buffer (record i { statistic = Statistic.new p now })
reset_statistic p now (of_multishot i) = of_multishot (record i { statistic = Statistic.new p now })
