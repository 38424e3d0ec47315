-- ===== src/Uring/Modes/Rooms.antt =====
-- The rings of buffers that src/io_uring/provided_buffer.rs and multishot.rs register.
use nperf.Base.{
  ℕ, ◌+◌, ◌%◌, ◌^◌, ◌≤◌, ◌<◌, ◌≡◌, subst, Option, u16_mod, ok, bind_ok, ok_inj, arith, Bool-cases,
  inl, inr,
}
use nperf.Config.{Parameter, uring_additional_buffer_length}
use nperf.Config.Floats.{F64}
use nperf.Uring.{create_ring}
use nperf.Uring.FillMode.{IsSizedRing}
use nperf.Uring.Modes.{
  BufRing, RingMaker, IoUringProvidedBuffer, IoUringMultishot, generic_msghdr, create_buf_ring,
  new_provided_buffer, new_multishot,
}

-- The head of the kernel's answer in a buffer, `io_uring_recvmsg_out`.
abbrev pub recvmsg_out_length : ℕ
recvmsg_out_length = 16

-- A buffer for each that the settings count, and room in it for the head of the kernel's answer, the control
-- messages and a datagram of the size `mss`.
abbrev pub IsRoomy : Parameter → BufRing → Type 0
IsRoomy p r =
    (r.entries ≡ p.uring_parameter.buffer_size)
    × (recvmsg_out_length + generic_msghdr.msg_controllen + p.mss ≤ r.buffer_length)

create_buf_ring-IsRoomy :
    (k : RingMaker) (p : Parameter) (r : BufRing)
    → IsSizedRing p.uring_parameter
    → p.mss + uring_additional_buffer_length < 2 ^ 32
    → create_buf_ring k (p.uring_parameter.buffer_size % u16_mod) p.mss ≡ ok r
    → IsRoomy p r
unfolding create_buf_ring
create_buf_ring-IsRoomy k p r sized small e =
    let ring : BufRing = record {
      entries = p.uring_parameter.buffer_size % u16_mod;
      group = 0;
      buffer_length = (p.mss + uring_additional_buffer_length) % 2 ^ 32;
    } in
    elim (Bool-cases (k.registers ring)) [
      | inl q ↦
          let same : ring ≡ r = ok_inj (rw q at e) in
          subst (IsRoomy p) same (omega (arith, sized.buffers, sized.ring), omega arith)
      | inr q ↦ cc (rw q at e)
    ]

-- Where the ring of buffers of a receiver is made, it has as many buffers as the settings count, also though
-- their number is cut to 16 bits, and each of them holds what the kernel puts before a datagram and a datagram
-- of the size `mss`, in the multishot mode and with provided buffers. The ring has checked
-- sizes, and `mss` with the added length is below 2^32.
pub new-IsRoomy :
    (k : RingMaker) (now : F64) (p : Parameter) (fd : Option ℕ)
    → IsSizedRing p.uring_parameter
    → p.mss + uring_additional_buffer_length < 2 ^ 32
    → ((i : IoUringMultishot) → new_multishot k now p fd ≡ ok i → IsRoomy p i.buf_ring)
      × ((i : IoUringProvidedBuffer) → new_provided_buffer k now p fd ≡ ok i → IsRoomy p i.buf_ring)
unfolding new_multishot new_provided_buffer
new-IsRoomy k now p fd sized small = (
  λ i e.
      let (ring, _, rest) = bind_ok (create_ring k.build k.probe p.uring_parameter fd) _ i e in
      let (r, made, last) =
        bind_ok (create_buf_ring k (p.uring_parameter.buffer_size % u16_mod) p.mss) _ i rest in
      subst (λ (x : IoUringMultishot). IsRoomy p x.buf_ring) (ok_inj last)
        (create_buf_ring-IsRoomy k p r sized small made),
  λ i e.
      let (ring, _, rest) = bind_ok (create_ring k.build k.probe p.uring_parameter fd) _ i e in
      let (r, made, last) =
        bind_ok (create_buf_ring k (p.uring_parameter.buffer_size % u16_mod) p.mss) _ i rest in
      subst (λ (x : IoUringProvidedBuffer). IsRoomy p x.buf_ring) (ok_inj last)
        (create_buf_ring-IsRoomy k p r sized small made),
)
