-- ===== src/Packets/Chunks.antt =====
-- Buffers with several datagrams: what `process_packet_msghdr` and `process_packet_buffer` count.
use native.Mathlib.Nat.{div-eq_of_lt-le}
use nperf.Base.{
  ℕ, zero, suc, ◌+◌, ◌-◌, ◌*◌, ◌/◌, ◌^◌, ◌≤◌, ◌<◌, ◌≡◌, refl, ap, ◌∙◌, List, [], ◌∷◌, arith, length,
  add64, ne→==, min, range_from, length-range_from, ok,
}
use nperf.Net.Header.{MessageType}
use nperf.Net.Header.RoundTrip.{Holds, getters-Holds}
use nperf.Statistic.{Statistic}
use nperf.Buffer.Msghdr.{Msghdr}
use nperf.Packets.{
  process_packet_number, process_packet, chunks_from, chunks, process_all, process_packet_buffer,
  process_chunks, single_packet_size, process_packet_msghdr,
}
use nperf.Packets.Accounting.{receive_numbers}

module _ (m : List ℕ) (size : ℕ) (kind : MessageType) (t : ℕ) where
  -- From `at` on the memory holds datagrams, `size` bytes apart, with these packet ids.
  abbrev pub Carries : ℕ → List ℕ → Type 0
  Carries at [] = Unit {0}
  Carries at (id ∷ ids) = Holds m at kind t id × Carries (at + size) ids

  -- Of `rest` bytes there is a header's worth for each of the ids.
  abbrev Fits : ℕ → List ℕ → Type 0
  Fits rest [] = Unit {0}
  Fits rest (id ∷ ids) = (24 ≤ min size rest) × Fits (rest - size) ids

  Fits-of :
      (last : ℕ) (id : ℕ) (ids : List ℕ) (rest : ℕ)
      → 24 ≤ last
      → last ≤ size
      → rest ≡ length ids * size + last
      → Fits rest (id ∷ ids)
  Fits-of last id [] rest h l e = (omega arith, tt)
  Fits-of last id (id' ∷ ids) rest h l e =
      (omega arith, Fits-of last id' ids (rest - size) h l (omega arith))

  process_packet-Holds :
      (at len id next : ℕ) (s : Statistic)
      → Holds m at kind t id
      → 2 < len
      → process_packet (record { memory = m; start = at; len = len }) next s
        ≡ ok (process_packet_number id next s)
  unfolding process_packet
  process_packet-Holds at len id next s h l =
      rw ((getters-Holds kind t id (record { memory = m; start = at; len = len }) h l).2)

  process_chunks-Carries :
      (ids : List ℕ) (at rest next c : ℕ) (s : Statistic)
      → Carries at ids
      → Fits rest ids
      → c + length ids < 2 ^ 64
      → process_chunks (chunks_from m size at rest (length ids)) next c s
        ≡ ok ((receive_numbers ids next s).0, c + length ids, (receive_numbers ids next s).1)
  unfolding process_chunks chunks_from receive_numbers
  process_chunks-Carries [] at rest next c s h f b = ap (λ x. ok (next, x, s)) (omega arith)
  process_chunks-Carries (id ∷ ids) at rest next c s h f b =
      let e : add64 c 1 ≡ c + 1 = omega arith in
      let z : c + suc (length ids) ≡ c + 1 + length ids = omega arith in
      let r = process_packet_number id next s in
      rw (process_packet-Holds at (min size rest) id next s h.0 (omega arith), e, z)
        (process_chunks-Carries ids (at + size) (rest - size) (add64 next r.0) (c + 1) r.1 h.1 f.1
          (omega arith))

  -- The number of chunks.
  chunk_count :
      (n last : ℕ) → 0 < last → last ≤ size → (n * size + last + (size - 1)) / size ≡ suc n
  chunk_count n last p l = div-eq_of_lt-le {k = suc n} size (omega arith) (omega arith)

  chunks-Carries :
      (n last : ℕ)
      → 0 < last
      → last ≤ size
      → chunks (record { memory = m; start = 0; len = n * size + last }) size
        ≡ ok (chunks_from m size 0 (n * size + last) (suc n))
  unfolding chunks
  chunks-Carries n last p l = rw (ne→== size 0 (omega arith), chunk_count n last p l)

-- A message of n + 1 datagrams of the size that came with it, the last of which may be shorter but
-- holds a header, is counted datagram by datagram: `process_packet_msghdr` does with it what
-- `process_packet_number` does with the ids one after the other, and returns their number.
pub process_packet_msghdr_lem :
    (kind : MessageType) (t size last next id : ℕ) (ids : List ℕ) (h : Msghdr) (s : Statistic)
    → h.msg_iovlen ≡ 1
    → 24 ≤ last
    → last ≤ size
    → single_packet_size h (length ids * size + last) ≡ size
    → length ids < 2 ^ 63
    → Carries h.iov_base size kind t 0 (id ∷ ids)
    → process_packet_msghdr h (length ids * size + last) next s
      ≡ ok (
        (receive_numbers (id ∷ ids) next s).0,
        length (id ∷ ids),
        (receive_numbers (id ∷ ids) next s).1,
      )
unfolding process_packet_msghdr
process_packet_msghdr_lem kind t size last next id ids h s one header shorter single few c =
    simp (one, single)
      (rw (chunks-Carries h.iov_base size kind t (length ids) last (omega arith) shorter) (
        process_chunks-Carries h.iov_base size kind t (id ∷ ids) 0 (length ids * size + last) next 0
          s c (Fits-of h.iov_base size kind t last id ids _ header shorter refl) (omega arith)
        ∙ ap
            (λ x.
              ok ((receive_numbers (id ∷ ids) next s).0, x, (receive_numbers (id ∷ ids) next s).1))
            (omega arith)))

-- What `process_all` adds up over ids, all compared with the same expected id.
abbrev same_next : List ℕ → ℕ → ℕ → Statistic → ℕ × Statistic
same_next [] next amount s = (amount, s)
same_next (id ∷ ids) next amount s =
    let r = process_packet_number id next s in same_next ids next (add64 amount r.0) r.1

process_all-Carries :
    (m : List ℕ) (size : ℕ) (kind : MessageType) (t : ℕ) (ids : List ℕ) (at rest next amount : ℕ)
    (s : Statistic)
    → Carries m size kind t at ids
    → Fits m size kind t rest ids
    → process_all (chunks_from m size at rest (length ids)) next amount s
      ≡ ok (same_next ids next amount s)
unfolding process_all chunks_from
process_all-Carries m size kind t [] at rest next amount s h f = refl
process_all-Carries m size kind t (id ∷ ids) at rest next amount s h f =
    let r = process_packet_number id next s in
    rw (process_packet-Holds m size kind t at (min size rest) id next s h.0 (omega arith)) (
      process_all-Carries m size kind t ids (at + size) (rest - size) next (add64 amount r.0) r.1
        h.1 f.1)

ahead :
    (id next j amount : ℕ) (s : Statistic)
    → id ≡ next + j
    → id < 2 ^ 62
    → amount < 2 ^ 62
    → s.amount_omitted_datagrams < 2 ^ 62
    → let r = process_packet_number id next s in
      (add64 amount r.0 ≡ amount + j + 1)
      × (r.1.amount_omitted_datagrams ≡ s.amount_omitted_datagrams + j)
unfolding process_packet_number
ahead id next j amount s e h a o = ground arith

-- Twice the sum of j, j + 1, …, j + k - 1.
abbrev twice_sum : ℕ → ℕ → ℕ
twice_sum j zero = 0
twice_sum j (suc k) = 2 * j + twice_sum (suc j) k

twice_sum-eq : (j k : ℕ) → twice_sum j k + k ≡ 2 * (j * k) + k * k
twice_sum-eq j zero = omega arith
twice_sum-eq j (suc k) = omega (arith, twice_sum-eq (suc j) k)

same_next_in_order :
    (k j id next amount : ℕ) (s : Statistic)
    → id ≡ next + j
    → id + k < 2 ^ 62
    → amount + twice_sum j k + k < 2 ^ 62
    → s.amount_omitted_datagrams + twice_sum j k < 2 ^ 62
    → let r = same_next (range_from id k) next amount s in
      (2 * r.0 ≡ 2 * amount + twice_sum j k + 2 * k)
      × (2 * r.1.amount_omitted_datagrams ≡ 2 * s.amount_omitted_datagrams + twice_sum j k)
same_next_in_order zero j id next amount s e h a o = (omega arith, omega arith)
same_next_in_order (suc k) j id next amount s e h a o =
    let (p, q) = ahead id next j amount s e (omega arith) (omega arith) (omega arith) in
    let r = process_packet_number id next s in
    let (x, y) =
      same_next_in_order k (suc j) (suc id) next (add64 amount r.0) r.1 (omega arith) (omega arith)
        (omega arith) (omega arith) in
    (omega arith, omega arith)

-- A flaw: `process_packet_buffer` compares every datagram of the buffer with the id expected
-- before the first. k + 1 datagrams that arrive in order, none of them lost, raise the expected id
-- by (k + 1)(k + 2) / 2 in place of k + 1, and count k(k + 1) / 2 of them as omitted.
pub process_packet_buffer_in_order :
    (kind : MessageType) (t size last next k : ℕ) (m : List ℕ) (s : Statistic)
    → 24 ≤ last
    → last ≤ size
    → next + k < 2 ^ 61
    → (k + 2) * (k + 2) < 2 ^ 61
    → s.amount_omitted_datagrams < 2 ^ 61
    → Carries m size kind t 0 (range_from next (suc k))
    → (amount : ℕ) × (s' : Statistic) × (process_packet_buffer
          (record { memory = m; start = 0; len = k * size + last })
          size
          next
          s
        ≡ ok (amount, s'))
      × (2 * amount ≡ (k + 1) * (k + 2))
      × (2 * s'.amount_omitted_datagrams ≡ 2 * s.amount_omitted_datagrams + k * (k + 1))
unfolding process_packet_buffer
process_packet_buffer_in_order kind t size last next k m s header shorter h b o c =
    let r = same_next (range_from next (suc k)) next 0 s in
    let len = length-range_from (suc next) k in
    let sums = twice_sum-eq 0 (suc k) in
    let (x, y) =
      same_next_in_order (suc k) 0 next next 0 s (omega arith) (omega arith) (omega arith)
        (omega arith) in
    (
      r.0,
      r.1,
      rw (chunks-Carries m size kind t k last (omega arith) shorter) (
          rw len at (
            process_all-Carries m size kind t (range_from next (suc k)) 0 (k * size + last) next 0 s
              c
              (Fits-of m size kind t last next (range_from (suc next) k) _ header shorter
                (rw len)))),
      omega arith,
      omega arith,
    )
