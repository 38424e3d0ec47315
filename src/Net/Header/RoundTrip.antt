-- ===== src/Net/Header/RoundTrip.antt =====
-- Reading a header back from the bytes that were written.
use nperf.Base.{
  ℕ, ◌+◌, ◌*◌, ◌^◌, ◌≤◌, ◌<◌, ◌≡◌, refl, ap, List, ◌++◌, arith, length, take, drop, drop-drop,
  take-drop-take, lt→ltb, le→leb, ok, ◌∙◌, ◌⊎◌, inl, inr,
}
use nperf.Net.Header.{
  MessageType, init, measurement, last, Slice, discriminant, new, serialize, read_word, write_word,
  get_packet_id, set_packet_id_raw, get_test_id, get_message_type, message_type_of,
}
use nperf.Net.Header.Bytes.{
  le_bytes, of_le, write_at, of_le-le_bytes, length-le_bytes, take-drop-write_at, write_at-append,
  take-drop-write_at_before, take-drop-write_at_after, length-write_at,
}

-- What the eight bytes at `at` say.
abbrev pub word_at : List ℕ → ℕ → ℕ
word_at m at = of_le (take 8 (drop at m))

word_at-write_at :
    (m : List ℕ) (at v : ℕ)
    → at + 8 ≤ length m
    → v < 2 ^ 64
    → word_at (write_at m at (le_bytes 8 v)) at ≡ v
word_at-write_at m at v h b =
    ap of_le (
      rw (length-le_bytes 8 v) at
        (take-drop-write_at m at (le_bytes 8 v) (omega (arith, length-le_bytes 8 v))))
    ∙ of_le-le_bytes 8 v (omega arith)

word_at-write_at_before :
    (m : List ℕ) (i at v : ℕ) → i + 8 ≤ at → word_at (write_at m at (le_bytes 8 v)) i ≡ word_at m i
word_at-write_at_before m i at v h = ap of_le (take-drop-write_at_before m i 8 at (le_bytes 8 v) h)

word_at-write_at_after :
    (m : List ℕ) (i at v : ℕ) → at + 8 ≤ i → word_at (write_at m at (le_bytes 8 v)) i ≡ word_at m i
word_at-write_at_after m i at v h =
    ap of_le (take-drop-write_at_after m i 8 at (le_bytes 8 v) (omega (arith, length-le_bytes 8 v)))

-- A word of a part of a memory.
pub word_at-part :
    (m : List ℕ) (at size k : ℕ)
    → k + 8 ≤ size
    → word_at (take size (drop at m)) k ≡ word_at m (at + k)
word_at-part m at size k l =
    ap of_le (take-drop-take 8 k size (drop at m) l ∙ ap (take 8) (drop-drop at k m))

-- An access within the slice and the allocation reads the word there.
pub read_word_ok :
    (s : Slice) (k : ℕ)
    → k < s.len
    → s.start + 8 * k + 8 ≤ length s.memory
    → read_word s k ≡ ok (word_at s.memory (s.start + 8 * k))
unfolding read_word
read_word_ok s k h b = rw (lt→ltb k s.len h, le→leb (s.start + 8 * k + 8) (length s.memory) b)

read_word_eq :
    (s : Slice) (k at v : ℕ)
    → at ≡ s.start + 8 * k
    → k < s.len
    → at + 8 ≤ length s.memory
    → word_at s.memory at ≡ v
    → read_word s k ≡ ok v
read_word_eq s k at v e l h w = read_word_ok s k l (omega arith) ∙ rw (← e, w)

pub write_word_ok :
    (s : Slice) (k v : ℕ)
    → k < s.len
    → s.start + 8 * k + 8 ≤ length s.memory
    → write_word s k v ≡ ok (write_at s.memory (s.start + 8 * k) (le_bytes 8 v))
unfolding write_word
write_word_ok s k v h b = rw (lt→ltb k s.len h, le→leb (s.start + 8 * k + 8) (length s.memory) b)

message_type_of-discriminant : (t : MessageType) → message_type_of (discriminant t) ≡ ok t
unfolding message_type_of
message_type_of-discriminant init = refl
message_type_of-discriminant measurement = refl
message_type_of-discriminant last = refl

-- Memory in which the header of a message stands at `at`.
pub record Holds (m : List ℕ) (at : ℕ) (mtype : MessageType) (test_id packet_id : ℕ) : Type 0 where
  pub room : at + 24 ≤ length m
  pub kind : word_at m at ≡ discriminant mtype
  pub test : word_at m (at + 8) ≡ test_id
  pub packet : word_at m (at + 16) ≡ packet_id

-- The three words, written one after the other.
abbrev written : List ℕ → ℕ → ℕ → ℕ → ℕ → List ℕ
written m at a b c =
    write_at (write_at (write_at m at (le_bytes 8 a)) (at + 8) (le_bytes 8 b)) (at + 16)
      (le_bytes 8 c)

write_at-words :
    (m : List ℕ) (at a b c : ℕ)
    → write_at m at (le_bytes 8 a ++ (le_bytes 8 b ++ le_bytes 8 c)) ≡ written m at a b c
write_at-words m at a b c =
    write_at-append m at (at + 8) (le_bytes 8 a) (le_bytes 8 b ++ le_bytes 8 c)
      (omega (arith, length-le_bytes 8 a))
    ∙ write_at-append (write_at m at (le_bytes 8 a)) (at + 8) (at + 16) (le_bytes 8 b)
        (le_bytes 8 c) (omega (arith, length-le_bytes 8 b))

discriminant-lt : (t : MessageType) → discriminant t < 2 ^ 64
discriminant-lt init = omega arith
discriminant-lt measurement = omega arith
discriminant-lt last = omega arith

module _ (m : List ℕ) (at a b c : ℕ) (room : at + 24 ≤ length m) where
  length-written : length (written m at a b c) ≡ length m
  length-written =
      length-write_at _ (at + 16) (le_bytes 8 c)
      ∙ length-write_at _ (at + 8) (le_bytes 8 b)
      ∙ length-write_at m at (le_bytes 8 a)

  written_first : a < 2 ^ 64 → word_at (written m at a b c) at ≡ a
  written_first h =
      word_at-write_at_before _ at (at + 16) c (omega arith)
      ∙ word_at-write_at_before _ at (at + 8) b (omega arith)
      ∙ word_at-write_at m at a (omega arith) h

  written_second : b < 2 ^ 64 → word_at (written m at a b c) (at + 8) ≡ b
  written_second h =
      word_at-write_at_before _ (at + 8) (at + 16) c (omega arith)
      ∙ word_at-write_at _ (at + 8) b (omega (arith, length-write_at m at (le_bytes 8 a))) h

  written_third : c < 2 ^ 64 → word_at (written m at a b c) (at + 16) ≡ c
  written_third h =
      word_at-write_at _ (at + 16) c
        (omega (
          arith,
          length-write_at m at (le_bytes 8 a),
          length-write_at (write_at m at (le_bytes 8 a)) (at + 8) (le_bytes 8 b),
        ))
        h

-- Copying a serialized header into memory with room for it makes the memory hold that header.
pub write_at-serialize-Holds :
    (mtype : MessageType) (test_id packet_id : ℕ) (m : List ℕ) (at : ℕ)
    → test_id < 2 ^ 64
    → packet_id < 2 ^ 64
    → at + 24 ≤ length m
    → Holds (write_at m at (serialize (new mtype test_id packet_id))) at mtype test_id packet_id
unfolding serialize new
write_at-serialize-Holds mtype t p m at ht hp room =
    rw (write_at-words m at (discriminant mtype) t p) (record {
      room = omega (arith, length-written m at (discriminant mtype) t p room);
      kind = written_first m at (discriminant mtype) t p room (discriminant-lt mtype);
      test = written_second m at (discriminant mtype) t p room ht;
      packet = written_third m at (discriminant mtype) t p room hp;
    })

-- The three getters read a held header back, from any slice of at least three bytes that starts
-- at it.
pub getters-Holds :
    (mtype : MessageType) (test_id packet_id : ℕ) (s : Slice)
    → Holds s.memory s.start mtype test_id packet_id
    → 2 < s.len
    → (get_message_type s ≡ ok mtype)
      × (get_test_id s ≡ ok test_id)
      × (get_packet_id s ≡ ok packet_id)
unfolding get_message_type get_test_id get_packet_id
getters-Holds mtype t p s h l = (
  rw
      (read_word_eq s 0 s.start (discriminant mtype) (omega arith) (omega arith) (omega arith)
        h.kind)
      (message_type_of-discriminant mtype),
  read_word_eq s 1 (s.start + 8) t (omega arith) (omega arith) (omega arith) h.test,
  read_word_eq s 2 (s.start + 16) p (omega arith) (omega arith) (omega arith) h.packet,
)

-- A header that is serialized and copied to a datagram's start is read back by the three getters.
pub serialize_round_trip :
    (mtype : MessageType) (test_id packet_id : ℕ) (m : List ℕ) (at len : ℕ)
    → test_id < 2 ^ 64
    → packet_id < 2 ^ 64
    → at + 24 ≤ length m
    → 2 < len
    → let s : Slice = record {
      memory = write_at m at (serialize (new mtype test_id packet_id));
      start = at;
      len = len;
    } in
      (get_message_type s ≡ ok mtype)
      × (get_test_id s ≡ ok test_id)
      × (get_packet_id s ≡ ok packet_id)
serialize_round_trip mtype t p m at len ht hp room l =
    getters-Holds mtype t p _ (write_at-serialize-Holds mtype t p m at ht hp room) l

pub set_packet_id_raw_eq :
    (s : Slice) (id : ℕ)
    → 2 < s.len
    → s.start + 24 ≤ length s.memory
    → set_packet_id_raw s id ≡ ok (write_at s.memory (s.start + 16) (le_bytes 8 id))
unfolding set_packet_id_raw
set_packet_id_raw_eq s id l r = write_word_ok s 2 id l (omega arith)

pub write_at-Holds_self :
    (mtype : MessageType) (test_id old id : ℕ) (m : List ℕ) (at : ℕ)
    → Holds m at mtype test_id old
    → id < 2 ^ 64
    → Holds (write_at m (at + 16) (le_bytes 8 id)) at mtype test_id id
write_at-Holds_self mtype t old id m at h b = record {
  room = omega (arith, length-write_at m (at + 16) (le_bytes 8 id));
  kind = word_at-write_at_before m at (at + 16) id (omega arith) ∙ h.kind;
  test = word_at-write_at_before m (at + 8) (at + 16) id (omega arith) ∙ h.test;
  packet = word_at-write_at m (at + 16) id (omega arith) b;
}

-- `set_packet_id_raw` replaces the packet id of a held header, keeps the rest of it and the
-- memory's length, if the slice has at least three bytes and the id is a u64.
pub set_packet_id_raw-Holds :
    (mtype : MessageType) (test_id old id : ℕ) (s : Slice)
    → Holds s.memory s.start mtype test_id old
    → 2 < s.len
    → id < 2 ^ 64
    → (m : List ℕ) × (set_packet_id_raw s id ≡ ok m)
      × Holds m s.start mtype test_id id
      × (length m ≡ length s.memory)
set_packet_id_raw-Holds mtype t old id s h l b = (
  write_at s.memory (s.start + 16) (le_bytes 8 id),
  set_packet_id_raw_eq s id l h.room,
  write_at-Holds_self mtype t old id s.memory s.start h b,
  length-write_at s.memory (s.start + 16) (le_bytes 8 id),
)

-- The other messages of a memory keep their headers: a header that ends before the written packet
-- id begins, or begins after it ends, is held as before.
pub write_at-Holds_apart :
    (mtype : MessageType) (test_id packet_id id : ℕ) (m : List ℕ) (at other : ℕ)
    → Holds m other mtype test_id packet_id
    → (other + 24 ≤ at + 16) ⊎ (at + 24 ≤ other)
    → Holds (write_at m (at + 16) (le_bytes 8 id)) other mtype test_id packet_id
write_at-Holds_apart mtype t p id m at other h (inl before) = record {
  room = omega (arith, length-write_at m (at + 16) (le_bytes 8 id));
  kind = word_at-write_at_before m other (at + 16) id (omega arith) ∙ h.kind;
  test = word_at-write_at_before m (other + 8) (at + 16) id (omega arith) ∙ h.test;
  packet = word_at-write_at_before m (other + 16) (at + 16) id (omega arith) ∙ h.packet;
}
write_at-Holds_apart mtype t p id m at other h (inr after) = record {
  room = omega (arith, length-write_at m (at + 16) (le_bytes 8 id));
  kind = word_at-write_at_after m other (at + 16) id (omega arith) ∙ h.kind;
  test = word_at-write_at_after m (other + 8) (at + 16) id (omega arith) ∙ h.test;
  packet = word_at-write_at_after m (other + 16) (at + 16) id (omega arith) ∙ h.packet;
}
