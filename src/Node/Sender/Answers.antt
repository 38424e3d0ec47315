-- ===== src/Node/Sender/Answers.antt =====
-- The socket's answers are no panics, and the first buffer is there: src/net/socket.rs and
-- src/util/packet_buffer.rs, for the calls of src/node/sender.rs.
use nperf.Base.{
  ℕ, ◌<◌, ◌≡◌, refl, ◌⊎◌, inl, inr, Bool, true, false, if◌then◌else◌, ◌==◌, length, get_elem?,
  get_elem?-some, some, Outcome, ok, err, Error, arith, unwrap, ◌>>=◌,
}
use nperf.Net.Header.{Slice}
use nperf.Buffer.Msghdr.{Msghdr, buffer_of}
use nperf.Net.Socket
use nperf.Net.Socket.{Answer, returned, failed}
use nperf.Buffer.PacketBuffer.{
  PacketBuffer, Mmsghdr, get_msghdr_from_index, get_buffer_pointer_from_index,
}

-- A result that is no fault.
abbrev pub Ends : Outcome ℕ → Type 0
Ends o = ((n : ℕ) × (o ≡ ok n)) ⊎ ((e : Error) × (o ≡ err e))

if-Ends : (b : Bool) (x y : Outcome ℕ) → Ends x → Ends y → Ends (if b then x else y)
if-Ends true x y p q = p
if-Ends false x y p q = q

pub send-Ends : (n : ℕ) (a : Answer) → Ends (Socket.send n a)
unfolding Socket.send
send-Ends n (returned k) = if-Ends (n == 0) _ _ (inr (_, refl)) (inl (k, refl))
send-Ends n (failed e) = if-Ends (n == 0) _ _ (inr (_, refl)) (
    if-Ends (e == 111) _ _ (inr (_, refl)) (
      if-Ends (e == 90) _ _ (inr (_, refl))
        (if-Ends (e == 11) _ _ (inr (_, refl)) (inr (_, refl)))))

pub sendmsg-Ends : (a : Answer) → Ends (Socket.sendmsg a)
unfolding Socket.sendmsg
sendmsg-Ends (returned n) = inl (n, refl)
sendmsg-Ends (failed e) =
    if-Ends (e == 111) _ _ (inr (_, refl)) (if-Ends (e == 11) _ _ (inr (_, refl)) (inr (_, refl)))

pub sendmmsg-Ends : (a : Answer) → Ends (Socket.sendmmsg a)
unfolding Socket.sendmmsg
sendmmsg-Ends (returned n) = inl (n, refl)
sendmmsg-Ends (failed e) =
    if-Ends (e == 111) _ _ (inr (_, refl)) (if-Ends (e == 11) _ _ (inr (_, refl)) (inr (_, refl)))

pub sendmmsg_ok : (a : Answer) (n : ℕ) → Socket.sendmmsg a ≡ ok n → a ≡ returned n
unfolding Socket.sendmmsg
sendmmsg_ok (returned k) n e = cc
sendmmsg_ok (failed k) n e = ground arith

-- `unwrap` of what the first buffer has, where there is one.
pub first-Ends :
    {A : Type 0} (get : PacketBuffer → ℕ → Outcome A) (b : PacketBuffer) (o : Outcome ℕ)
    → (x : A) × (get b 0 ≡ ok x)
    → Ends o
    → Ends (unwrap (get b 0) >>= λ x. o)
first-Ends get b o (x, e) h = rw e h

pointer_of :
    (b : PacketBuffer) (m : Mmsghdr)
    → get_elem? b.mmsghdr_vec 0 ≡ some m
    → get_buffer_pointer_from_index b 0 ≡ ok (buffer_of m.msg_hdr)
unfolding get_buffer_pointer_from_index
pointer_of b m e = ground arith

msghdr_of :
    (b : PacketBuffer) (m : Mmsghdr)
    → get_elem? b.mmsghdr_vec 0 ≡ some m
    → get_msghdr_from_index b 0 ≡ ok m.msg_hdr
unfolding get_msghdr_from_index
msghdr_of b m e = ground arith

pub pointer_there :
    (b : PacketBuffer)
    → 0 < length b.mmsghdr_vec
    → (x : Slice) × (get_buffer_pointer_from_index b 0 ≡ ok x)
pointer_there b h =
    let (m, e) = get_elem?-some b.mmsghdr_vec 0 h in (buffer_of m.msg_hdr, pointer_of b m e)

pub msghdr_there :
    (b : PacketBuffer)
    → 0 < length b.mmsghdr_vec
    → (x : Msghdr) × (get_msghdr_from_index b 0 ≡ ok x)
msghdr_there b h = let (m, e) = get_elem?-some b.mmsghdr_vec 0 h in (m.msg_hdr, msghdr_of b m e)
