-- ===== src/Transfer/Spoken.antt =====
-- The type and the test in the header of every datagram of numbered messages.
use native.Mathlib.Nat.{ℕ_set}
use nperf.Base.{ℕ, zero, suc, ◌+◌, ◌*◌, ◌≤◌, ◌≡◌, ◌∙◌, List, [], ◌∷◌, drop, drop-drop, arith}
use nperf.Net.Header.{measurement}
use nperf.Net.Header.RoundTrip.{word_at-part}
use nperf.Buffer.Msghdr.{Msghdr}
use nperf.Buffer.PacketBuffer.Ids.{Ids}
use nperf.Transfer.Ordered.{InOrder}
use nperf.Transfer.Datagrams.{datagrams_of, datagrams_on}
use nperf.Transfer.Shuffled.{All, All-append}
use nperf.Transfer.Arriving.{Speaks}

module _ (n size t : ℕ) (big : 24 ≤ size) where
  Ids-Speaks :
      (k i id : ℕ) (h : Msghdr)
      → i + k ≡ n
      → Ids n size measurement t 0 id h
      → All (Speaks t) (datagrams_of size k (drop (i * size) h.iov_base))
  Ids-Speaks zero i id h e ids = tt
  Ids-Speaks (suc k) i id h e ids =
      let here = ids i (omega arith) (omega arith) in
      let z : i * size + 0 ≡ i * size = omega arith in
      let w : i * size + size ≡ (i + 1) * size = omega arith in
      (
        (
          word_at-part h.iov_base (i * size) size 0 (omega arith) ∙ rw z (here.kind),
          word_at-part h.iov_base (i * size) size 8 (omega arith) ∙ here.test,
        ),
        rw (drop-drop (i * size) size h.iov_base, w) (Ids-Speaks k (i + 1) id h (omega arith) ids),
      )

  pub InOrder-Speaks :
      (id : ℕ) (hs : List Msghdr)
      → InOrder n size measurement t id hs
      → All (Speaks t) (datagrams_on n size hs)
  InOrder-Speaks id [] o = tt
  InOrder-Speaks id (h ∷ hs) o =
      let y : 0 * size ≡ 0 = omega arith in
      All-append (Speaks t) (datagrams_of size n h.iov_base) (datagrams_on n size hs)
        (rw y at (Ids-Speaks n 0 id h (omega arith) o.0)) (InOrder-Speaks (id + n) hs o.1)

pub Speaks-prop : (t : ℕ) (d : List ℕ) → IsProp (Speaks t d)
Speaks-prop t d = λ x y i. (ℕ_set _ _ x.0 y.0 i, ℕ_set _ _ x.1 y.1 i)
