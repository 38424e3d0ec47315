-- ===== src/Net/Options.antt =====
-- src/net/socket_options.rs, and the creation of a socket in src/net/socket.rs: which calls to the
-- kernel are made in which order. The kernel answers a call from the calls before it.
use nperf.Base.{
  ℕ, zero, ◌-◌, ◌*◌, ◌==◌, ltb, Bool, true, false, not, List, [], ◌∷◌, Option, none, some,
  if◌then◌else◌, sub32, mul32, Outcome, ok, err, fault, Fault, panicked, Error,
  socket_option_failed, get_socket_option_failed, get_socket_flags_failed, set_socket_flags_failed,
  invalid_buffer_type, buffer_size_not_set, failed_to_get_mss,
}
use nperf.Config.{SocketOptions}
use nperf.Net.Socket.{Socket, Answer, returned, failed}
pub mod Order

-- The options the code names, each with its level.
pub data OptionName : Type 0 where
  so_reuseport so_sndbuf so_rcvbuf so_max_pacing_rate : OptionName
  udp_segment udp_gro ip_mtu_discover ip_mtu : OptionName

-- The calls. `fcntl_setfl flags` adds O_NONBLOCK to the flags; the value of an option is that of its C
-- type, IP_PMTUDISC_DO is 2.
pub data Call : Type 0 where
  socket_call fcntl_getfl : Call
  setsockopt : OptionName → ℕ → Call
  getsockopt : OptionName → Call
  fcntl_setfl : ℕ → Call

-- The answer to a call after those made before, the latest first.
abbrev pub Kernel : Type 0
Kernel = List Call → Call → Answer

-- A result with the calls made so far.
abbrev pub Traced {ℓ} : Type ℓ → Type ℓ
Traced A = List Call → Outcome A × List Call

infixl 5 ◌>>=◌ ◌>>◌
abbrev pub ◌>>=◌ {ℓ κ} : {A : Type ℓ} {B : Type κ} → Traced A → (A → Traced B) → Traced B
(m >>= f) h = elim (m h).0 [
  | ok a ↦ f a (m h).1
  | err e ↦ (err e, (m h).1)
  | fault x ↦ (fault x, (m h).1)
]

abbrev pub ◌>>◌ {ℓ} : {B : Type ℓ} → Traced (Unit {0}) → Traced B → Traced B
m >> k = m >>= λ _. k

abbrev pub done {ℓ} : {A : Type ℓ} → A → Traced A
done a h = (ok a, h)

abbrev pub fails {ℓ} : {A : Type ℓ} → Error → Traced A
fails e h = (err e, h)

-- The conditional `if c { m? }`.
abbrev pub when : Bool → Traced (Unit {0}) → Traced (Unit {0})
when true m = m
when false m = done tt

abbrev pub value : Bool → ℕ
value true = 1
value false = 0

module _ (kernel : Kernel) where
  -- `-1` is the error `e`.
  abbrev pub ask : Error → Call → Traced ℕ
  ask e c h = elim (kernel h c) [ returned n ↦ (ok n, c ∷ h) | failed errno ↦ (err e, c ∷ h) ]

  unfoldable pub set_socket_option : OptionName → ℕ → Traced (Unit {0})
  set_socket_option name v = ask socket_option_failed (setsockopt name v) >>= λ n. done tt

  unfoldable pub get_socket_option : OptionName → Traced ℕ
  get_socket_option name = ask get_socket_option_failed (getsockopt name)

  unfoldable pub set_nonblocking : Traced (Unit {0})
  set_nonblocking = do
    flags ← ask get_socket_flags_failed fcntl_getfl
    n ← ask set_socket_flags_failed (fcntl_setfl flags)
    done tt

  abbrev is_buffer : OptionName → Bool
  is_buffer so_sndbuf = true
  is_buffer so_rcvbuf = true
  is_buffer _ = false

  -- The kernel doubles the size, and what it has afterwards is checked.
  unfoldable pub set_buffer_size : ℕ → OptionName → Traced (Unit {0})
  unfolding set_socket_option get_socket_option
  set_buffer_size size buffer_type = do
    current ← get_socket_option buffer_type
    if is_buffer buffer_type
        then (do
          u ← set_socket_option buffer_type size
          current_size ← get_socket_option buffer_type
          if ltb current_size (mul32 size 2) then fails buffer_size_not_set else done tt)
        else fails invalid_buffer_type

  unfoldable pub set_gso : ℕ → Traced (Unit {0})
  unfolding set_socket_option
  set_gso gso_size = set_socket_option udp_segment gso_size

  unfoldable pub set_gro : Bool → Traced (Unit {0})
  unfolding set_socket_option
  set_gro status = set_socket_option udp_gro (value status)

  unfoldable pub set_ip_fragmentation_off : Traced (Unit {0})
  unfolding set_socket_option
  set_ip_fragmentation_off = set_socket_option ip_mtu_discover 2

  -- The MTU less the headers of IPv4 and UDP; any error becomes one text.
  unfoldable pub get_mss : Traced ℕ
  unfolding get_socket_option
  get_mss h = elim (get_socket_option ip_mtu h).0 [
    | ok mtu ↦ (ok (sub32 (sub32 mtu 20) 8), (get_socket_option ip_mtu h).1)
    | err e ↦ (err failed_to_get_mss, (get_socket_option ip_mtu h).1)
    | fault x ↦ (fault x, (get_socket_option ip_mtu h).1)
  ]

  unfoldable pub set_socket_pacing : ℕ → Traced (Unit {0})
  unfolding set_socket_option
  set_socket_pacing pacing_rate = set_socket_option so_max_pacing_rate pacing_rate

  unfoldable pub set_reuseport : Bool → Traced (Unit {0})
  unfolding set_socket_option
  set_reuseport status = set_socket_option so_reuseport (value status)

  -- A size that was asked for is set, else the kernel's is read.
  unfoldable pub set_or_read : Option ℕ → OptionName → Traced (Option ℕ)
  unfolding set_buffer_size get_socket_option
  set_or_read (some size) name = set_buffer_size size name >>= λ u. done (some size)
  set_or_read none name = get_socket_option name >>= λ n. done (some n)

  abbrev set_gso_if : Option ℕ → Traced (Unit {0})
  set_gso_if none = done tt
  set_gso_if (some size) = set_gso size

  -- The first call that fails ends it; the sizes read are kept in the options.
  unfoldable pub set_socket_options : SocketOptions → Traced SocketOptions
  unfolding set_reuseport set_nonblocking set_ip_fragmentation_off set_gso set_socket_pacing set_gro
      set_or_read
  set_socket_options o = do
    u ← set_reuseport o.reuseport
    u ← when o.nonblocking set_nonblocking
    u ← when (not o.ip_fragmentation) set_ip_fragmentation_off
    u ← set_gso_if o.gso
    u ← when (ltb 0 o.socket_pacing_rate) (set_socket_pacing o.socket_pacing_rate)
    u ← set_gro o.gro
    send_size ← set_or_read o.send_buffer_size so_sndbuf
    recv_size ← set_or_read o.recv_buffer_size so_rcvbuf
    done (record o { send_buffer_size = send_size; recv_buffer_size = recv_size })

  -- `Socket::new`: none where no socket is made; a failing option is a panic.
  unfoldable pub new_socket : SocketOptions → Traced (Option Socket)
  unfolding set_socket_options
  new_socket o h = elim (kernel h socket_call) [
    | failed errno ↦ (ok none, socket_call ∷ h)
    | returned fd ↦
        let r = set_socket_options o (socket_call ∷ h) in
        elim r.0 [
          | ok o' ↦
              (ok (some (record { sock_addr_in = none; sock_addr_out = none; socket = fd })), r.1)
          | err e ↦ (fault panicked, r.1)
          | fault x ↦ (fault x, r.1)
        ]
  ]
