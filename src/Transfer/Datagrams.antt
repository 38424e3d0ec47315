-- ===== src/Transfer/Datagrams.antt =====
-- The datagrams of a message, and the packet ids in them.
use nperf.Base.{
  ℕ, zero, suc, ◌+◌, ◌*◌, ◌≤◌, ◌≡◌, refl, ap, ap₂, ◌∙◌, List, [], ◌∷◌, ◌++◌, map, take, drop,
  drop-drop, length, range_from, arith,
}
use mathlib.Core.List.{map-append}
use nperf.Net.Header.{MessageType}
use nperf.Net.Header.RoundTrip.{word_at, word_at-part}
use nperf.Buffer.Msghdr.{Msghdr}
use nperf.Buffer.PacketBuffer.Ids.{Ids}
use nperf.Transfer.Ordered.{InOrder}

-- The first `k` datagrams of `size` bytes in a memory.
abbrev pub datagrams_of : ℕ → ℕ → List ℕ → List (List ℕ)
datagrams_of size zero m = []
datagrams_of size (suc k) m = take size m ∷ datagrams_of size k (drop size m)

-- The packet id that a datagram carries: the third word of its header.
abbrev pub id_of : List ℕ → ℕ
id_of datagram = word_at datagram 16

-- The datagrams of `n` to a message that go over the wire.
abbrev pub datagrams_on : ℕ → ℕ → List Msghdr → List (List ℕ)
datagrams_on n size [] = []
datagrams_on n size (h ∷ hs) = datagrams_of size n h.iov_base ++ datagrams_on n size hs

-- The ids of the datagrams of a memory, from `at` on.
abbrev pub ids_from : ℕ → List ℕ → ℕ → ℕ → List ℕ
ids_from size m at zero = []
ids_from size m at (suc k) = word_at m (at + 16) ∷ ids_from size m (at + size) k

pub ids_from-datagrams_of :
    (size : ℕ) (m : List ℕ) (at k : ℕ)
    → 24 ≤ size
    → map id_of (datagrams_of size k (drop at m)) ≡ ids_from size m at k
ids_from-datagrams_of size m at zero l = refl
ids_from-datagrams_of size m at (suc k) l =
    ap₂ (λ x xs. x ∷ xs) (word_at-part m at size 16 (omega arith))
      (ap (λ ys. map id_of (datagrams_of size k ys)) (drop-drop at size m)
        ∙ ids_from-datagrams_of size m (at + size) k l)

range_from-append : (k a b : ℕ) → range_from k (a + b) ≡ range_from k a ++ range_from (k + a) b
range_from-append k zero b =
    let e : 0 + b ≡ b = omega arith in let z : k + 0 ≡ k = omega arith in rw (e, z) refl
range_from-append k (suc a) b =
    let e : suc a + b ≡ suc (a + b) = omega arith in
    let z : k + suc a ≡ suc k + a = omega arith in
    rw (e, z) (ap (λ xs. k ∷ xs) (range_from-append (suc k) a b))

module _ (n size : ℕ) (kind : MessageType) (t : ℕ) (big : 24 ≤ size) where
  Ids-ids_from :
      (k i id : ℕ) (h : Msghdr)
      → i + k ≡ n
      → Ids n size kind t 0 id h
      → ids_from size h.iov_base (i * size) k ≡ range_from (id + i) k
  Ids-ids_from zero i id h e ids = refl
  Ids-ids_from (suc k) i id h e ids =
      let z : i * size + size ≡ (i + 1) * size = omega arith in
      let w : suc (id + i) ≡ id + (i + 1) = omega arith in
      ap₂ (λ x xs. x ∷ xs) ((ids i (omega arith) (omega arith)).packet ∙ omega arith)
        (rw (z, w) (Ids-ids_from k (i + 1) id h (omega arith) ids))

  pub InOrder-range :
      (id : ℕ) (hs : List Msghdr)
      → InOrder n size kind t id hs
      → map id_of (datagrams_on n size hs) ≡ range_from id (length hs * n)
  InOrder-range id [] o = let e : 0 * n ≡ 0 = omega arith in rw e refl
  InOrder-range id (h ∷ hs) o =
      let e : suc (length hs) * n ≡ n + length hs * n = omega arith in
      let z : id + 0 ≡ id = omega arith in
      let y : 0 * size ≡ 0 = omega arith in
      rw
        (
          map-append id_of (datagrams_of size n h.iov_base) (datagrams_on n size hs),
          e,
          range_from-append id n (length hs * n),
        )
        (ap₂ (λ xs ys. xs ++ ys)
          (ids_from-datagrams_of size h.iov_base 0 n big
            ∙ rw (y, z) at (Ids-ids_from n 0 id h (omega arith) o.0))
          (InOrder-range (id + n) hs o.1))
