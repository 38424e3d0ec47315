-- ===== src/Net/Options/Order.antt =====
-- The calls that src/net/socket_options.rs makes, in their order.
use nperf.Base.{
  ℕ, ◌≡◌, Bool, true, false, not, List, [], ◌∷◌, ◌++◌, map, Option, none, some, ltb, ◌<◌, mul32,
  if◌then◌else◌, Outcome, ok, err, Error, buffer_size_not_set,
}
use nperf.Config.{SocketOptions}
use nperf.Net.Socket.{returned, failed}
use nperf.Net.Options.{
  OptionName, so_reuseport, so_sndbuf, so_rcvbuf, so_max_pacing_rate, udp_segment, udp_gro,
  ip_mtu_discover, Call, fcntl_getfl, setsockopt, getsockopt, fcntl_setfl, Kernel, Traced,
}

-- A call, but for the flags that it carries.
abbrev pub kind : Call → Call
kind (fcntl_setfl flags) = fcntl_setfl 0
kind c = c

-- The calls `cs` in this order, after `h`; the latest is the first of the list.
abbrev pub onto : List Call → List Call → List Call
onto [] h = h
onto (c ∷ cs) h = onto cs (c ∷ h)

-- The calls of a trace after `h`, all answered without a failure.
pub data Answered (kernel : Kernel) (h : List Call) : List Call → Type 0 where
  no_more : Answered kernel h h
  answered :
      (c : Call) (n : ℕ) (t : List Call)
      → Answered kernel h t
      → kernel t c ≡ returned n
      → Answered kernel h (c ∷ t)

-- How `cs` were made: all of them and none failed, and it succeeded; or it made the first of them, of which the latest
-- failed and none before it; or the latest read a size of a buffer that is less than twice the one asked for.
pub data Made {A : Type 0} (kernel : Kernel) (cs h : List Call)
    : Outcome A → List Call → Type 0 where
  all_made :
      (a : A) (t : List Call)
      → map kind t ≡ onto cs (map kind h)
      → Answered kernel h t
      → Made kernel cs h (ok a) t
  stopped :
      (e : Error) (c : Call) (errno : ℕ) (ps rest t : List Call)
      → ps ++ rest ≡ cs
      → map kind (c ∷ t) ≡ onto ps (map kind h)
      → Answered kernel h t
      → kernel t c ≡ failed errno
      → Made kernel cs h (err e) (c ∷ t)
  too_small :
      (name : OptionName) (n size : ℕ) (ps rest t : List Call)
      → ps ++ rest ≡ cs
      → map kind (getsockopt name ∷ t) ≡ onto ps (map kind h)
      → Answered kernel h t
      → kernel t (getsockopt name) ≡ returned n
      → n < mul32 size 2
      → Made kernel cs h (err buffer_size_not_set) (getsockopt name ∷ t)

-- The calls for the size of a buffer.
abbrev pub buffer_calls : Option ℕ → OptionName → List Call
buffer_calls none name = getsockopt name ∷ []
buffer_calls (some size) name = getsockopt name ∷ setsockopt name size ∷ getsockopt name ∷ []

abbrev pub gso_calls : Option ℕ → List Call
gso_calls none = []
gso_calls (some size) = setsockopt udp_segment size ∷ []

abbrev pub flag : Bool → ℕ
flag true = 1
flag false = 0

-- What the settings ask of the kernel, in order.
abbrev pub planned : SocketOptions → List Call
planned o =
    (setsockopt so_reuseport (flag o.reuseport) ∷ [])
    ++ ((if o.nonblocking then fcntl_getfl ∷ fcntl_setfl 0 ∷ [] else [])
        ++ ((if not o.ip_fragmentation then setsockopt ip_mtu_discover 2 ∷ [] else [])
            ++ (gso_calls o.gso
                ++ ((if ltb 0 o.socket_pacing_rate
                      then setsockopt so_max_pacing_rate o.socket_pacing_rate ∷ []
                      else [])
                    ++ ((setsockopt udp_gro (flag o.gro) ∷ [])
                        ++ (buffer_calls o.send_buffer_size so_sndbuf
                            ++ (buffer_calls o.recv_buffer_size so_rcvbuf ++ [])))))))

module _ (kernel : Kernel) where
  abbrev Follows : {A : Type 0} → List Call → Traced A → Type 0
  Follows cs m = (h : List Call) → Made kernel cs h (m h).0 (m h).1
