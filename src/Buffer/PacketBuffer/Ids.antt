-- ===== src/Buffer/PacketBuffer/Ids.antt =====
-- The packet ids that `add_packet_ids` and `add_packet_ids_to_msghdr` write.
use nperf.Base.{
  ℕ, zero, suc, ◌+◌, ◌*◌, ◌-◌, ◌^◌, ◌≤◌, ◌<◌, ◌≡◌, ◌≢◌, refl, ap, subst, ◌∙◌, inl, inr, List, [],
  ◌∷◌, Option, arith, le→leb, length, add64, mul64, min, ok, ◌>>=◌,
}
use native.Mathlib.Decide.{dec_lt, ℕ_discrete}
use nperf.Net.Header.{MessageType}
use nperf.Net.Header.Bytes.{le_bytes, write_at, length-write_at}
use nperf.Net.Header.RoundTrip.{
  Holds, set_packet_id_raw_eq, write_at-Holds_apart, write_at-Holds_self,
}
use nperf.Buffer.Msghdr.{Msghdr}
use nperf.Buffer.PacketBuffer.{
  PacketBuffer, Mmsghdr, stamp, stamp_packets, stamp_buffers, limit_of, add_packet_ids,
}

-- A buffer of `n` datagrams of size `d`, each with the header of a message of test `t`. Sizes are
-- below half the address space.
pub record IsFilled (n d : ℕ) (kind : MessageType) (t : ℕ) (h : Msghdr) : Type 0 where
  pub size : 24 ≤ d
  pub inside : h.iov_len ≤ length h.iov_base
  pub fits : (j : ℕ) → j < n → j * d + 24 ≤ h.iov_len
  pub small : n * d < 2 ^ 63
  pub headers : (j : ℕ) → j < n → (id : ℕ) × Holds h.iov_base (j * d) kind t id

-- Datagrams do not overlap.
apart : (i j d : ℕ) → i < j → 24 ≤ d → i * d + 24 ≤ j * d
apart i j d h k = grind arith

mul-below : (i n d : ℕ) → i < n → i * d ≤ n * d
mul-below i n d h = grind arith

module _ (n d : ℕ) (kind : MessageType) (t : ℕ) where
  abbrev stamped : ℕ → ℕ → Msghdr → Msghdr
  stamped i id h = record h { iov_base = write_at h.iov_base (i * d + 16) (le_bytes 8 id) }

  stamp_eq :
      (i id : ℕ) (h : Msghdr)
      → IsFilled n d kind t h
      → i < n
      → stamp h (mul64 i d) id ≡ ok (stamped i id h)
  unfolding stamp
  stamp_eq i id h f l =
      let e : mul64 i d ≡ i * d = omega (arith, mul-below i n d l, f.small) in
      rw (
        e,
        le→leb (i * d) h.iov_len (omega (arith, f.fits i l)),
        set_packet_id_raw_eq
            (record { memory = h.iov_base; start = i * d; len = h.iov_len - i * d }) id
            (omega (arith, f.fits i l)) (omega (arith, f.fits i l, f.inside)),
      )

  -- The other datagrams keep their headers.
  stamped_other :
      (i id j id' : ℕ) (h : Msghdr)
      → 24 ≤ d
      → j ≢ i
      → Holds h.iov_base (j * d) kind t id'
      → Holds (stamped i id h).iov_base (j * d) kind t id'
  stamped_other i id j id' h s ne k =
      write_at-Holds_apart kind t id' id h.iov_base (i * d) (j * d) k (elim (dec_lt j i) [
        | yes lt ↦ inl (omega (arith, apart j i d lt s))
        | no ge ↦ inr (apart i j d (omega arith) s)
      ])

  stamped-IsFilled :
      (i id : ℕ) (h : Msghdr)
      → IsFilled n d kind t h
      → i < n
      → id < 2 ^ 64
      → IsFilled n d kind t (stamped i id h)
  stamped-IsFilled i id h f l b = record {
    size = f.size;
    inside = omega (arith, length-write_at h.iov_base (i * d + 16) (le_bytes 8 id), f.inside);
    fits = f.fits;
    small = f.small;
    headers = λ j lj.
        let (old, k) = f.headers j lj in
        elim (ℕ_discrete j i) [
          | yes e ↦ (
            id,
            rw e (
                write_at-Holds_self kind t old id h.iov_base (i * d)
                  (subst (λ x. Holds h.iov_base (x * d) kind t old) e k) b),
          )
          | no ne ↦ (old, stamped_other i id j old h f.size ne k)
        ];
  }

  abbrev pub Ids : ℕ → ℕ → Msghdr → Type 0
  Ids i id g = (j : ℕ) → i ≤ j → j < n → Holds g.iov_base (j * d) kind t (id + (j - i))

  abbrev Kept : ℕ → Msghdr → Msghdr → Type 0
  Kept i h g =
      (j id : ℕ) → j < i → Holds h.iov_base (j * d) kind t id → Holds g.iov_base (j * d) kind t id

  stamp_packets-Ids :
      (k i id : ℕ) (h : Msghdr)
      → i + k ≡ n
      → id + k < 2 ^ 64
      → IsFilled n d kind t h
      → (g : Msghdr) × (stamp_packets k i d id h ≡ ok g)
        × IsFilled n d kind t g
        × Ids i id g
        × Kept i h g
  unfolding stamp_packets
  stamp_packets-Ids zero i id h e b f = (h, refl, f, λ j l m. absurd (omega arith), λ j id' l k. k)
  stamp_packets-Ids (suc k) i id h e b f =
      let (g, r, f', ids, kept) =
        stamp_packets-Ids k (i + 1) (id + 1) (stamped i id h) (omega arith) (omega arith)
          (stamped-IsFilled i id h f (omega arith) (omega arith)) in
      let one : add64 id 1 ≡ id + 1 = omega arith in
      (
        g,
        rw (stamp_eq i id h f (omega arith), one) r,
        f',
        λ j l m. elim (ℕ_discrete j i) [
          | yes q ↦
              let (old, held) = f.headers i (omega arith) in
              let here =
                kept i id (omega arith)
                  (write_at-Holds_self kind t old id h.iov_base (i * d) held (omega arith)) in
              let z : id + (j - i) ≡ id = omega arith in rw (z, q) here
          | no ne ↦
              let z : id + (j - i) ≡ id + 1 + (j - (i + 1)) = omega arith in
              rw z (ids j (omega arith) m)
        ],
        λ j id' l held.
            kept j id' (omega arith) (stamped_other i id j id' h f.size (omega arith) held),
      )

  abbrev pub AllFilled : List Mmsghdr → Type 0
  AllFilled [] = Unit {0}
  AllFilled (m ∷ ms) = IsFilled n d kind t m.msg_hdr × AllFilled ms

  -- The datagrams of the first `limit` buffers carry the ids from `id` on, in order.
  abbrev pub Numbered : ℕ → ℕ → List Mmsghdr → Type 0
  Numbered limit id [] = Unit {0}
  Numbered zero id (m ∷ ms) = Unit {0}
  Numbered (suc limit) id (m ∷ ms) = Ids 0 id m.msg_hdr × Numbered limit (id + n) ms

  -- How many ids the first `limit` buffers use.
  abbrev ids_used : ℕ → List Mmsghdr → ℕ
  ids_used limit [] = 0
  ids_used zero (m ∷ ms) = 0
  ids_used (suc limit) (m ∷ ms) = n + ids_used limit ms

  ids_used-eq : (limit : ℕ) (ms : List Mmsghdr) → ids_used limit ms ≡ min limit (length ms) * n
  ids_used-eq zero [] = omega arith
  ids_used-eq (suc limit) [] = let e : min (suc limit) 0 ≡ 0 = omega arith in rw e (omega arith)
  ids_used-eq zero (m ∷ ms) =
      let e : min 0 (suc (length ms)) ≡ 0 = omega arith in rw e (omega arith)
  ids_used-eq (suc limit) (m ∷ ms) =
      let e : min (suc limit) (suc (length ms)) ≡ suc (min limit (length ms)) = omega arith in
      rw e (omega (arith, ids_used-eq limit ms))

  stamp_buffers-Numbered :
      (limit id used : ℕ) (ms : List Mmsghdr)
      → id + used + ids_used limit ms < 2 ^ 64
      → AllFilled ms
      → (ms' : List Mmsghdr) × (stamp_buffers limit n d id used ms
          ≡ ok (ms', used + ids_used limit ms))
        × AllFilled ms'
        × Numbered limit (id + used) ms'
        × (length ms' ≡ length ms)
  unfolding stamp_buffers
  stamp_buffers-Numbered limit id used [] b f =
      ([], ap (λ x. ok ([], x)) (omega arith), tt, tt, refl)
  stamp_buffers-Numbered zero id used (m ∷ ms) b f =
      (m ∷ ms, ap (λ x. ok (m ∷ ms, x)) (omega arith), f, tt, refl)
  stamp_buffers-Numbered (suc limit) id used (m ∷ ms) b f =
      let (g, r, f', ids, _) =
        stamp_packets-Ids n 0 (id + used) m.msg_hdr (omega arith) (omega arith) f.0 in
      let (ms', r', fs, nums, l) =
        stamp_buffers-Numbered limit id (used + n) ms (omega arith) f.1 in
      let e1 : add64 id used ≡ id + used = omega arith in
      let e2 : add64 used n ≡ used + n = omega arith in
      let e3 : used + n + ids_used limit ms ≡ used + (n + ids_used limit ms) = omega arith in
      let e4 : id + (used + n) ≡ id + used + n = omega arith in
      (
        record m { msg_hdr = g } ∷ ms',
        rw (e1, r, e2, r', e3),
        (f', fs),
        (ids, rw e4 at nums),
        omega arith,
      )

-- In buffers whose datagrams all hold a message header, `add_packet_ids` writes consecutive ids
-- from `packet_id` on into the datagrams of all buffers, or of the first ones up to the given
-- amount, returns how many it used, keeps the kind and the test id of every header, and changes
-- nothing but the buffers, if the ids stay below 2^64.
pub add_packet_ids-Numbered :
    (kind : MessageType) (t packet_id : ℕ) (amount : Option ℕ) (b : PacketBuffer)
    → AllFilled b.packets_amount_per_msghdr b.datagram_size kind t b.mmsghdr_vec
    → packet_id + min (limit_of amount b) (length b.mmsghdr_vec) * b.packets_amount_per_msghdr
      < 2 ^ 64
    → (ms : List Mmsghdr) × (add_packet_ids packet_id amount b
        ≡ ok (
          min (limit_of amount b) (length b.mmsghdr_vec) * b.packets_amount_per_msghdr,
          record b { mmsghdr_vec = ms },
        ))
      × AllFilled b.packets_amount_per_msghdr b.datagram_size kind t ms
      × Numbered b.packets_amount_per_msghdr b.datagram_size kind t (limit_of amount b) packet_id ms
      × (length ms ≡ length b.mmsghdr_vec)
unfolding add_packet_ids
add_packet_ids-Numbered kind t id amount b f small =
    let n = b.packets_amount_per_msghdr in
    let d = b.datagram_size in
    let limit = limit_of amount b in
    let eq = ids_used-eq n d kind t limit b.mmsghdr_vec in
    let (ms, r, f', nums, l) =
      stamp_buffers-Numbered n d kind t limit id 0 b.mmsghdr_vec (omega arith) f in
    let z : id + 0 ≡ id = omega arith in
    let e : 0 + ids_used n d kind t limit b.mmsghdr_vec ≡ min limit (length b.mmsghdr_vec) * n =
      omega arith in
    (
      ms,
      ap (λ x. x >>= λ r. ok (r.1, record b { mmsghdr_vec = r.0 })) r
          ∙ ap (λ x. ok (x, record b { mmsghdr_vec = ms })) e,
      f',
      rw z at nums,
      l,
    )
