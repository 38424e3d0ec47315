-- ===== src/Transfer/Ordered.antt =====
-- Messages whose datagrams carry consecutive packet ids, as `add_packet_ids` of src/util/packet_buffer.rs gives them.
use nperf.Base.{ℕ, zero, suc, ◌+◌, ◌*◌, ◌≤◌, ◌≡◌, List, [], ◌∷◌, ◌++◌, map, take, arith, length}
use nperf.Net.Header.{MessageType}
use nperf.Buffer.Msghdr.{Msghdr}
use nperf.Buffer.PacketBuffer.{Mmsghdr}
use nperf.Buffer.PacketBuffer.Ids.{Ids, Numbered}

module _ (n d : ℕ) (kind : MessageType) (t : ℕ) where
  -- The datagrams of the messages carry the ids from `id` on.
  abbrev pub InOrder : ℕ → List Msghdr → Type 0
  InOrder id [] = Unit {0}
  InOrder id (h ∷ hs) = Ids n d kind t 0 id h × InOrder (id + n) hs

  pub Numbered-InOrder :
      (limit id : ℕ) (ms : List Mmsghdr)
      → length ms ≤ limit
      → Numbered n d kind t limit id ms
      → InOrder id (map (λ m. m.msg_hdr) ms)
  Numbered-InOrder limit id [] l h = tt
  Numbered-InOrder zero id (m ∷ ms) l h = absurd (omega arith)
  Numbered-InOrder (suc limit) id (m ∷ ms) l h =
      (h.0, Numbered-InOrder limit (id + n) ms (omega arith) h.1)

  pub InOrder-take : (k id : ℕ) (hs : List Msghdr) → InOrder id hs → InOrder id (take k hs)
  InOrder-take zero id hs o = tt
  InOrder-take (suc k) id [] o = tt
  InOrder-take (suc k) id (h ∷ hs) o = (o.0, InOrder-take k (id + n) hs o.1)

  pub InOrder-append :
      (id : ℕ) (hs gs : List Msghdr)
      → InOrder id hs
      → InOrder (id + length hs * n) gs
      → InOrder id (hs ++ gs)
  InOrder-append id [] gs o p = let z : id + 0 * n ≡ id = omega arith in rw z at p
  InOrder-append id (h ∷ hs) gs o p =
      let z : id + suc (length hs) * n ≡ id + n + length hs * n = omega arith in
      (o.0, InOrder-append (id + n) hs gs o.1 (rw z at p))
