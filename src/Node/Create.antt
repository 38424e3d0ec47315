-- ===== src/Node/Create.antt =====
-- `Sender::new` and `Receiver::new` of src/node: the socket, the buffers, and the counters at the start.
use nperf.Base.{
  ℕ, ◌/◌, ◌%◌, [], Option, none, some, Outcome, ok, err, fault, panicked, unwrap, ◌>>=◌,
}
use nperf.Config.{Parameter}
use nperf.Config.Floats.{F64, Floats}
use nperf.Net.Socket
use nperf.Net.Socket.{Socket, SocketAddr, Answer, set_sock_addr_out}
use nperf.Statistic
use nperf.Statistic.Interval
use nperf.Buffer.MsghdrVec
use nperf.Buffer.MsghdrVec.{with_cmsg_buffer}
use nperf.Buffer.PacketBuffer
use nperf.Node.Sender.{Sender, create_packet_buffer}
use nperf.Node.Receiver.{Receiver}

-- 0.0.0.0
abbrev pub default_sender_ip : ℕ
default_sender_ip = 0

-- `SocketAddrV4::new`, of an address as the u32 of its octets.
abbrev pub address : ℕ → ℕ → SocketAddr
address ip port = record {
  octets = (ip / 16777216, ip / 65536 % 256, ip / 256 % 256, ip % 256);
  port = port;
}

-- `expect`, on a call that changes the socket.
abbrev pub expect_socket : Outcome (Unit {0}) × Socket → Outcome Socket
expect_socket (o, s) = unwrap o >>= λ u. ok s

-- `Socket::new(…).expect(…)`
abbrev pub expect_new : Outcome (Option Socket) → Outcome Socket
expect_new (ok none) = fault panicked
expect_new (ok (some s)) = ok s
expect_new (err e) = fault panicked
expect_new (fault x) = fault x

-- What the creation of a node reads: the result of `Socket::new`, the answers of `bind` and `connect`, and
-- the clocks.
pub record Creation : Type 0 where
  pub made : Outcome (Option Socket)
  pub bind_answer : Answer
  pub connect_answer : Answer
  pub statistic_unix : F64
  pub instant : ℕ
  pub interval_unix : F64

-- A socket of its own is bound where a port is given, and connected; a shared one only gets the address.
unfoldable pub sender_socket : Creation → Option ℕ → SocketAddr → Option Socket → Outcome Socket
sender_socket c local_port out (some socket) = ok (set_sock_addr_out out socket)
sender_socket c none out none =
    expect_new c.made >>= λ s. expect_socket (Socket.connect out c.connect_answer s)
sender_socket c (some port) out none = expect_new c.made >>= λ s.
    expect_socket (Socket.bind (address default_sender_ip port) c.bind_answer s) >>= λ s.
    expect_socket (Socket.connect out c.connect_answer s)

unfoldable pub receiver_socket : Creation → SocketAddr → Option Socket → Outcome Socket
receiver_socket c at (some socket) = ok socket
receiver_socket c at none =
    expect_new c.made >>= λ s. expect_socket (Socket.bind at c.bind_answer s)

module _ (fl : Floats) where
  unfoldable pub new_sender :
      Creation → ℕ → Option ℕ → SocketAddr → Option Socket → Option ℕ → Parameter → Outcome Sender
  unfolding sender_socket
  new_sender c test_id local_port out socket io_uring p =
      sender_socket c local_port out socket >>= λ s. create_packet_buffer fl p test_id s >>= λ b.
      ok (record {
        test_id = test_id;
        packet_buffer = b;
        socket = s;
        parameter = p;
        io_uring_sqpoll_fd = io_uring;
        statistic = Statistic.new p c.statistic_unix;
        statistic_interval =
            Statistic.Interval.new fl c.instant p.output_interval p.test_runtime_length
              c.interval_unix;
        run_time_length = p.test_runtime_length;
        next_packet_id = 0;
        exchange_function = p.exchange_function;
      })

  unfoldable pub new_receiver :
      Creation → SocketAddr → Option Socket → Option ℕ → Parameter → Outcome Receiver
  unfolding receiver_socket
  new_receiver c at socket io_uring p = receiver_socket c at socket >>= λ s.
      MsghdrVec.new fl p.packet_buffer_size p.mss p.datagram_size >>= λ v. ok (record {
        packet_buffer = PacketBuffer.new (with_cmsg_buffer v);
        socket = s;
        io_uring_sqpoll_fd = io_uring;
        next_packet_id = 0;
        parameter = p;
        measurements = [];
        statistic_interval =
            Statistic.Interval.new fl c.instant p.output_interval p.test_runtime_length
              c.interval_unix;
        exchange_function = p.exchange_function;
      })
