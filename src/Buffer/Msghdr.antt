-- ===== src/Buffer/Msghdr.antt =====
-- src/util/msghdr.rs: a message header of libc over one buffer of its own, and what the library
-- libc keeps in such a header.
use nperf.Base.{
  ℕ, zero, suc, ◌+◌, ◌%◌, Bool, true, false, ◌&&◌, List, [], ◌∷◌, Option, none, some, ltb, leb,
  if◌then◌else◌, length, replicate, add64, mul64, Outcome, ok, fault, panicked, ◌>>=◌,
}
use nperf.Config.{length_msghdr_control_message_buffer}
use nperf.Config.Floats.{Floats}
use nperf.Net.Header.{MessageType, measurement, MessageHeader, Slice, serialize, set_packet_id}
use nperf.Net.Header
use nperf.Net.Header.Bytes.{write_at}

-- libc's sockaddr_in: the port in network order, the address as the u32 of its octets.
pub record SockaddrIn : Type 0 where
  pub family : ℕ
  pub port : ℕ
  pub addr : ℕ

-- `msg_name`: no address, a pointer to an address, or one to memory that has been given back.
pub data MsgName : Type 0 where
  null : MsgName
  points_to : SockaddrIn → MsgName
  dangling : MsgName

-- One control message, as CMSG_FIRSTHDR and CMSG_NXTHDR of libc walk over them.
pub record Cmsg : Type 0 where
  pub level : ℕ
  pub cmsg_type : ℕ
  pub value : ℕ

-- libc's msghdr with its one iovec. `iov_base` is the memory from the base on to the end of the
-- allocation.
pub record Msghdr : Type 0 where
  pub msg_name : MsgName
  pub iov_base : List ℕ
  pub iov_len : ℕ
  pub msg_iovlen : ℕ
  pub msg_control : List Cmsg
  pub msg_controllen : ℕ
  pub msg_flags : ℕ

-- `slice::from_raw_parts(iov_base, iov_len)`
abbrev pub buffer_of : Msghdr → Slice
buffer_of h = record { memory = h.iov_base; start = 0; len = h.iov_len }

pub record WrapperMsghdr : Type 0 where
  pub msghdr : Msghdr
  pub buffer_length : ℕ
  pub with_cmsg : Bool
  pub sockaddr : Option SockaddrIn
  pub datagram_size : ℕ
  pub packets_amount : ℕ

unfoldable pub create_msghdr : List ℕ → ℕ → Msghdr
create_msghdr iov_base iov_len = record {
  msg_name = null;
  iov_base = iov_base;
  iov_len = iov_len;
  msg_iovlen = 1;
  msg_control = [];
  msg_controllen = 0;
  msg_flags = 0;
}

-- `mss % datagram_size` panics at 0. The zeroed address is written here as no address.
unfoldable pub new : Floats → ℕ → ℕ → Outcome (Option WrapperMsghdr)
unfolding create_msghdr
new fl mss zero = fault panicked
new fl mss (suc d) = ok (
    some (record {
      msghdr = create_msghdr (replicate mss 0) mss;
      buffer_length = mss;
      with_cmsg = false;
      sockaddr = none;
      datagram_size = suc d;
      packets_amount = fl.to_u64 (fl.ceil (fl.div (fl.of_u64 mss) (fl.of_u64 (suc d))));
    }))

unfoldable pub to_ascii_lowercase : ℕ → ℕ
to_ascii_lowercase c = if leb b'A' c && leb c b'Z' then c + 32 else c

unfoldable pub repeating_pattern : ℕ → ℕ → List ℕ
repeating_pattern zero counter = []
repeating_pattern (suc n) counter =
    to_ascii_lowercase ((48 + counter) % 256)
    ∷ repeating_pattern n (if ltb 9 counter then 0 else counter + 1)

unfoldable pub fill_with_repeating_pattern : WrapperMsghdr → WrapperMsghdr
fill_with_repeating_pattern w = record w {
  msghdr = record h { iov_base = write_at h.iov_base 0 (repeating_pattern h.iov_len 0) };
}
  where
    h : Msghdr
    h = w.msghdr

-- `buffer[start..(start + 24)].copy_from_slice(serialized_header)`
unfoldable pub copy_header : Msghdr → ℕ → MessageHeader → Outcome Msghdr
copy_header h start header =
    if leb (start + 24) h.iov_len
    then ok (record h { iov_base = write_at h.iov_base start (serialize header) })
    else fault panicked

-- The loop of `add_message_header`, from packet `i` on, for `n` packets.
unfoldable pub add_headers : ℕ → ℕ → ℕ → MessageHeader → ℕ → Msghdr → Outcome Msghdr
add_headers zero i datagram_size header packet_id h = ok h
add_headers (suc n) i datagram_size header packet_id h =
    copy_header h (mul64 i datagram_size) (set_packet_id header (add64 packet_id i)) >>= λ h'.
    add_headers n (i + 1) datagram_size header packet_id h'

-- Beside the new state, the number of ids used.
unfoldable pub add_message_header : ℕ → ℕ → WrapperMsghdr → Outcome (ℕ × WrapperMsghdr)
add_message_header test_id packet_id w =
    add_headers w.packets_amount 0 w.datagram_size (Header.new measurement test_id packet_id)
      packet_id w.msghdr
    >>= λ h. ok (w.packets_amount, record w { msghdr = h })

unfoldable pub set_address : SockaddrIn → WrapperMsghdr → WrapperMsghdr
set_address address w = record w {
  sockaddr = some address;
  msghdr = record h { msg_name = points_to address };
}
  where
    h : Msghdr
    h = w.msghdr

unfoldable pub add_cmsg_buffer : WrapperMsghdr → WrapperMsghdr
add_cmsg_buffer w = record w {
  with_cmsg = true;
  msghdr = record h { msg_control = []; msg_controllen = length_msghdr_control_message_buffer };
}
  where
    h : Msghdr
    h = w.msghdr

unfoldable pub copy_buffer : List ℕ → WrapperMsghdr → WrapperMsghdr
copy_buffer buffer w =
    if leb (length buffer) w.buffer_length
    then record w {
      buffer_length = length buffer;
      msghdr = record h { iov_base = write_at h.iov_base 0 buffer };
    }
    else w
  where
    h : Msghdr
    h = w.msghdr

abbrev reset_for_use : WrapperMsghdr → Msghdr
reset_for_use w = record h {
  msg_controllen = if w.with_cmsg then length_msghdr_control_message_buffer else h.msg_controllen;
  msg_flags = 0;
}
  where
    h : Msghdr
    h = w.msghdr

unfoldable pub get_msghdr : WrapperMsghdr → Msghdr
get_msghdr w = reset_for_use w

-- The header moves out of the wrapper and the wrapper goes: the name, which points to the
-- wrapper's own `sockaddr`, is left behind.
abbrev left_behind : MsgName → MsgName
left_behind null = null
left_behind _ = dangling

unfoldable pub move_msghdr : WrapperMsghdr → Msghdr
move_msghdr w = record h { msg_name = left_behind h.msg_name }
  where
    h : Msghdr
    h = reset_for_use w
