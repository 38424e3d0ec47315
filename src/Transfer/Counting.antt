-- ===== src/Transfer/Counting.antt =====
-- What `process_packet_msghdr` of src/util/mod.rs and the loop over the messages of recvmmsg in
-- src/node/receiver.rs count of whole datagrams.
use native.Mathlib.Nat.{div-eq_of_lt-le}
use mathlib.Core.List.{map-append}
use nperf.Base.{
  ℕ, zero, suc, ◌+◌, ◌*◌, ◌/◌, ◌-◌, ◌^◌, ◌≤◌, ◌<◌, ◌≡◌, refl, ap, subst, ne→==, ◌∙◌, min, Bool,
  if◌then◌else◌, List, [], ◌∷◌, ◌++◌, map, length, length-append, length-map, add64, arith, ok,
}
use nperf.Net.Header.{get_packet_id}
use nperf.Net.Header.RoundTrip.{word_at, read_word_ok}
use nperf.Buffer.Msghdr.{Msghdr}
use nperf.Statistic.{Statistic}
use nperf.Buffer.PacketBuffer.{Mmsghdr, reset_fields}
use nperf.Packets.{
  process_packet_number, process_packet, chunks_from, chunks, process_chunks, single_packet_size,
  process_packet_msghdr,
}
use nperf.Packets.Accounting.{receive_numbers}
use nperf.Node.Receiver.Recv.{process_msghdrs}
use nperf.Transfer.Datagrams.{datagrams_of, id_of, ids_from, ids_from-datagrams_of}

-- A message of whole datagrams of `size` bytes: the kernel says that size where there are several.
pub record IsWhole (size : ℕ) (m : Mmsghdr) : Type 0 where
  pub one : m.msg_hdr.msg_iovlen ≡ 1
  pub whole : m.msg_len / size * size ≡ m.msg_len
  pub some_datagram : 0 < m.msg_len / size
  pub inside : m.msg_len ≤ length m.msg_hdr.iov_base
  pub single : single_packet_size m.msg_hdr m.msg_len ≡ size
  pub small : m.msg_len < 2 ^ 63

abbrev pub datagrams_in : ℕ → Mmsghdr → List (List ℕ)
datagrams_in size m = datagrams_of size (m.msg_len / size) m.msg_hdr.iov_base

-- The datagrams of the first `amount` messages.
abbrev pub datagrams_among : ℕ → ℕ → List Mmsghdr → List (List ℕ)
datagrams_among size zero ms = []
datagrams_among size (suc n) [] = []
datagrams_among size (suc n) (m ∷ ms) = datagrams_in size m ++ datagrams_among size n ms

abbrev pub AllWhole : ℕ → ℕ → List Mmsghdr → Type 0
AllWhole size zero ms = Unit {0}
AllWhole size (suc n) [] = Unit {0}
AllWhole size (suc n) (m ∷ ms) = IsWhole size m × AllWhole size n ms

length-ids_from : (size : ℕ) (m : List ℕ) (at k : ℕ) → length (ids_from size m at k) ≡ k
length-ids_from size m at zero = refl
length-ids_from size m at (suc k) = ap suc (length-ids_from size m (at + size) k)

pub receive_numbers-append :
    (xs ys : List ℕ) (next : ℕ) (s : Statistic)
    → receive_numbers (xs ++ ys) next s
      ≡ receive_numbers ys (receive_numbers xs next s).0 (receive_numbers xs next s).1
unfolding receive_numbers
receive_numbers-append [] ys next s = refl
receive_numbers-append (x ∷ xs) ys next s = receive_numbers-append xs ys _ _

module _ (size : ℕ) (big : 24 ≤ size) where
  process_packet-word :
      (m : List ℕ) (at len next : ℕ) (s : Statistic)
      → 2 < len
      → at + 24 ≤ length m
      → process_packet (record { memory = m; start = at; len = len }) next s
        ≡ ok (process_packet_number (word_at m (at + 16)) next s)
  unfolding process_packet get_packet_id
  process_packet-word m at len next s l room =
      let e : at + 8 * 2 ≡ at + 16 = omega arith in
      rw (read_word_ok (record { memory = m; start = at; len = len }) 2 l (omega arith), e) refl

  process_chunks-ids :
      (k : ℕ) (m : List ℕ) (at next c : ℕ) (s : Statistic)
      → at + k * size ≤ length m
      → c + k < 2 ^ 64
      → let r = receive_numbers (ids_from size m at k) next s in
        process_chunks (chunks_from m size at (k * size) k) next c s ≡ ok (r.0, c + k, r.1)
  unfolding process_chunks chunks_from receive_numbers
  process_chunks-ids zero m at next c s room few = ap (λ x. ok (next, x, s)) (omega arith)
  process_chunks-ids (suc k) m at next c s room few =
      let rest : suc k * size - size ≡ k * size = omega arith in
      let whole : min size (suc k * size) ≡ size = omega arith in
      let e : add64 c 1 ≡ c + 1 = omega arith in
      let z : c + suc k ≡ c + 1 + k = omega arith in
      let r = process_packet_number (word_at m (at + 16)) next s in
      rw (rest, whole, process_packet-word m at size next s (omega arith) (omega arith), e, z)
        (process_chunks-ids k m (at + size) (add64 next r.0) (c + 1) r.1 (omega arith)
          (omega arith))

  chunks-whole :
      (m : List ℕ) (n : ℕ)
      → chunks (record { memory = m; start = 0; len = n * size }) size
        ≡ ok (chunks_from m size 0 (n * size) n)
  unfolding chunks
  chunks-whole m n =
      let e : (n * size + (size - 1)) / size ≡ n =
        div-eq_of_lt-le {k = n} size (omega arith) (omega arith) in
      rw (ne→== size 0 (omega arith), e)

  process_packet_msghdr-ids :
      (h : Msghdr) (n next : ℕ) (s : Statistic)
      → h.msg_iovlen ≡ 1
      → single_packet_size h (n * size) ≡ size
      → n * size ≤ length h.iov_base
      → n < 2 ^ 64
      → let r = receive_numbers (ids_from size h.iov_base 0 n) next s in
        process_packet_msghdr h (n * size) next s ≡ ok (r.0, n, r.1)
  unfolding process_packet_msghdr
  process_packet_msghdr-ids h n next s one single inside few =
      simp (one, single)
        (rw (chunks-whole h.iov_base n) (
          process_chunks-ids n h.iov_base 0 next 0 s (omega arith) (omega arith)
          ∙ ap
              (λ c. ok (
                (receive_numbers (ids_from size h.iov_base 0 n) next s).0,
                c,
                (receive_numbers (ids_from size h.iov_base 0 n) next s).1,
              ))
              (omega arith)))

  -- What is counted of a message.
  abbrev counted_of : List ℕ → ℕ → Statistic → ℕ × ℕ × Statistic
  counted_of ids next s =
      ((receive_numbers ids next s).0, length ids, (receive_numbers ids next s).1)

  process_packet_msghdr-IsWhole :
      (m : Mmsghdr) (next : ℕ) (s : Statistic)
      → IsWhole size m
      → process_packet_msghdr m.msg_hdr m.msg_len next s
        ≡ ok (counted_of (map id_of (datagrams_in size m)) next s)
  process_packet_msghdr-IsWhole m next s w =
      let n = m.msg_len / size in
      let base = m.msg_hdr.iov_base in
      let counted =
        process_packet_msghdr-ids m.msg_hdr n next s w.one
          (ap (single_packet_size m.msg_hdr) w.whole ∙ w.single) (omega (arith, w.whole, w.inside))
          (omega (arith, grows n, w.whole, w.small)) in
      rw (ids_from-datagrams_of size base 0 n big, length-ids_from size base 0 n)
        (subst
          (λ len.
            process_packet_msghdr m.msg_hdr len next s
            ≡ ok (
              (receive_numbers (ids_from size base 0 n) next s).0,
              n,
              (receive_numbers (ids_from size base 0 n) next s).1,
            ))
          w.whole counted)
    where
      grows : (n : ℕ) → n ≤ n * size
      grows n = grind (arith, big)

  -- The loop of recvmmsg over the first `amount` messages.
  pub process_msghdrs-AllWhole :
      (gro : Bool) (ms : List Mmsghdr) (amount next got : ℕ) (s : Statistic)
      → AllWhole size amount ms
      → got + length (datagrams_among size amount ms) < 2 ^ 64
      → let ids = map id_of (datagrams_among size amount ms) in
        (ms' : List Mmsghdr) × (process_msghdrs gro ms amount next got s
          ≡ ok (
            ms',
            (receive_numbers ids next s).0,
            got + length ids,
            (receive_numbers ids next s).1,
          ))
  unfolding process_msghdrs receive_numbers
  process_msghdrs-AllWhole gro [] zero next got s w few =
      ([], ap (λ g. ok ([], next, g, s)) (omega arith))
  process_msghdrs-AllWhole gro [] (suc n) next got s w few =
      ([], ap (λ g. ok ([], next, g, s)) (omega arith))
  process_msghdrs-AllWhole gro (m ∷ ms) zero next got s w few =
      (m ∷ ms, ap (λ g. ok (m ∷ ms, next, g, s)) (omega arith))
  process_msghdrs-AllWhole gro (m ∷ ms) (suc n) next got s w few =
      let now = datagrams_in size m in
      let later = datagrams_among size n ms in
      let ids = map id_of now in
      let r = receive_numbers ids next s in
      let all = length-append now later in
      let here = length-map id_of now in
      let e : add64 got (length ids) ≡ got + length ids = omega arith in
      let (ms', q) =
        process_msghdrs-AllWhole gro ms n r.0 (got + length ids) r.1 w.1 (omega arith) in
      let f = receive_numbers (map id_of later) r.0 r.1 in
      let z : got + length ids + length (map id_of later) ≡ got + length (ids ++ map id_of later) =
        omega (arith, length-append ids (map id_of later)) in
      rw
        (
          map-append id_of now later,
          receive_numbers-append ids (map id_of later) next s,
          process_packet_msghdr-IsWhole m next s w.0,
          e,
          q,
        )
        (
          (if gro then record m { msg_hdr = reset_fields m.msg_hdr } else m) ∷ ms',
          ap
              (λ g. ok (
                (if gro then record m { msg_hdr = reset_fields m.msg_hdr } else m) ∷ ms',
                f.0,
                g,
                f.1,
              ))
              z,
        )
