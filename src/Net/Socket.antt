-- ===== src/Net/Socket.antt =====
-- src/net/socket.rs: what a socket makes of the answers of the kernel. The kernel's answer to a
-- call, and what it wrote to the memory, are arguments.
use nperf.Base.{
  ℕ, ◌+◌, ◌*◌, ◌/◌, ◌%◌, List, [], ◌∷◌, Option, none, some, if◌then◌else◌, ◌==◌, Outcome, ok, err,
  eagain, econnrefused, emsgsize, timeout, failed_to_send_data, failed_to_receive_data,
  buffer_is_empty, poll_failed, select_failed, close_failed, bind_failed, connect_failed,
}
use nperf.Buffer.Msghdr.{SockaddrIn}

-- An address: the four octets and the port.
pub record SocketAddr : Type 0 where
  pub octets : ℕ × ℕ × ℕ × ℕ
  pub port : ℕ

pub record Socket : Type 0 where
  pub sock_addr_in : Option SocketAddr
  pub sock_addr_out : Option SocketAddr
  pub socket : ℕ

-- A system call returns a count, or -1 with an errno.
pub data Answer : Type 0 where
  returned : ℕ → Answer
  failed : ℕ → Answer

-- ECONNREFUSED is 111, EMSGSIZE 90, EAGAIN 11.
unfoldable pub send : ℕ → Answer → Outcome ℕ
send buffer_len answer = if buffer_len == 0 then err buffer_is_empty else elim answer [
  | returned n ↦ ok n
  | failed errno ↦
      if errno == 111
      then err econnrefused
      else if errno == 90
      then err emsgsize
      else if errno == 11
      then err eagain
      else err failed_to_send_data
]

unfoldable pub sendmsg : Answer → Outcome ℕ
sendmsg (returned n) = ok n
sendmsg (failed errno) =
    if errno == 111
    then err econnrefused
    else if errno == 11
    then err eagain
    else err failed_to_send_data

unfoldable pub sendmmsg : Answer → Outcome ℕ
sendmmsg (returned n) = ok n
sendmmsg (failed errno) =
    if errno == 111
    then err econnrefused
    else if errno == 11
    then err eagain
    else err failed_to_send_data

unfoldable pub recvmmsg : Answer → Outcome ℕ
recvmmsg (returned n) = ok n
recvmmsg (failed errno) = if errno == 11 then err eagain else err failed_to_receive_data

unfoldable pub recvmsg : Answer → Outcome ℕ
recvmsg (returned n) = ok n
recvmsg (failed errno) = if errno == 11 then err eagain else err failed_to_receive_data

unfoldable pub recv : Answer → Outcome ℕ
recv (returned n) = ok n
recv (failed errno) = if errno == 11 then err eagain else err failed_to_receive_data

unfoldable pub poll : Answer → Outcome (Unit {0})
poll (failed errno) = err poll_failed
poll (returned n) = if n == 0 then err timeout else ok tt

unfoldable pub select : Answer → Outcome (Unit {0})
select (failed errno) = err select_failed
select (returned n) = if n == 0 then err timeout else ok tt

unfoldable pub close : Answer → Outcome (Unit {0})
close (failed errno) = err close_failed
close (returned n) = ok tt

-- The address is read as little-endian, the port is turned to big-endian; AF_INET is 2.
unfoldable pub create_sockaddr : SocketAddr → SockaddrIn
create_sockaddr a =
    let (o0, o1, o2, o3) = a.octets in
    record {
      family = 2;
      port = a.port % 256 * 256 + a.port / 256;
      addr = o0 + 256 * o1 + 65536 * o2 + 16777216 * o3;
    }

-- The address is kept even when the call fails.
unfoldable pub connect : SocketAddr → Answer → Socket → Outcome (Unit {0}) × Socket
connect a answer s =
    let result : Outcome (Unit {0}) = elim answer [
      | failed errno ↦ err connect_failed
      | returned n ↦ ok tt
    ] in
    (result, record s { sock_addr_out = some a })

unfoldable pub bind : SocketAddr → Answer → Socket → Outcome (Unit {0}) × Socket
bind a answer s =
    let result : Outcome (Unit {0}) = elim answer [
      | failed errno ↦ err bind_failed
      | returned n ↦ ok tt
    ] in
    (result, record s { sock_addr_in = some a })

unfoldable pub set_sock_addr_out : SocketAddr → Socket → Socket
set_sock_addr_out a s = record s { sock_addr_out = some a }

unfoldable pub get_sockaddr_out : Socket → Option SockaddrIn
unfolding create_sockaddr
get_sockaddr_out s = elim s.sock_addr_out [ some a ↦ some (create_sockaddr a) | none ↦ none ]

-- libc's sets of descriptors and its two operations on them.
pub record FdSets : Type 1 where
  pub FdSet : Type 0
  pub zeroed : FdSet
  pub fd_zero : FdSet → FdSet
  pub fd_set : ℕ → FdSet → FdSet

unfoldable pub create_fdset : (f : FdSets) → Socket → f.FdSet
create_fdset f s = f.fd_set s.socket (f.fd_zero f.zeroed)

pub record Pollfd : Type 0 where
  pub fd : ℕ
  pub events : ℕ
  pub revents : ℕ

unfoldable pub create_pollfd : ℕ → Socket → List Pollfd
create_pollfd event s = record { fd = s.socket; events = event; revents = 0 } ∷ []
