-- ===== src/Net/Header.antt =====
-- src/net/mod.rs: the message header at the start of each datagram, three u64 in little-endian
-- order. A slice of bytes is a window of an allocation: `transmute` to a slice of u64 keeps the
-- slice's length, so an index is tested against the number of bytes, while the read or write
-- goes to eight bytes for each index. Outside of the allocation that is undefined.
pub mod Bytes
pub mod RoundTrip
use nperf.Base.{
  ℕ, zero, suc, ◌+◌, ◌*◌, ◌/◌, ◌%◌, Bool, true, false, List, [], ◌∷◌, ◌++◌, Option, none, some, ltb,
  leb, ◌==◌, if◌then◌else◌, length, take, drop, Outcome, ok, fault, Fault, panicked, undefined,
  ◌>>=◌,
}
use Bytes.{le_bytes, of_le, write_at}

pub data MessageType : Type 0 where
  init measurement last : MessageType

pub record MessageHeader : Type 0 where
  pub message_type : ℕ
  pub test_id : ℕ
  pub packet_id : ℕ

abbrev pub len_header : ℕ
len_header = 24

-- `mtype as u64`
abbrev pub discriminant : MessageType → ℕ
discriminant init = 0
discriminant measurement = 1
discriminant last = 2

unfoldable pub new : MessageType → ℕ → ℕ → MessageHeader
new mtype test_id packet_id = record {
  message_type = discriminant mtype;
  test_id = test_id;
  packet_id = packet_id;
}

unfoldable pub serialize : MessageHeader → List ℕ
serialize h = le_bytes 8 h.message_type ++ (le_bytes 8 h.test_id ++ le_bytes 8 h.packet_id)

unfoldable pub set_packet_id : MessageHeader → ℕ → MessageHeader
set_packet_id h id = record h { packet_id = id }

-- `&memory[start..start + len]`
pub record Slice : Type 0 where
  pub memory : List ℕ
  pub start : ℕ
  pub len : ℕ

-- `header[k]` of the transmuted slice
unfoldable pub read_word : Slice → ℕ → Outcome ℕ
read_word s k =
    let at = s.start + 8 * k in
    if ltb k s.len
    then (if leb (at + 8) (length s.memory)
        then ok (of_le (take 8 (drop at s.memory)))
        else fault undefined)
    else fault panicked

-- `header[k] = v`: the memory afterwards
unfoldable pub write_word : Slice → ℕ → ℕ → Outcome (List ℕ)
write_word s k v =
    let at = s.start + 8 * k in
    if ltb k s.len
    then (if leb (at + 8) (length s.memory)
        then ok (write_at s.memory at (le_bytes 8 v))
        else fault undefined)
    else fault panicked

unfoldable pub get_packet_id : Slice → Outcome ℕ
get_packet_id s = read_word s 2

unfoldable pub set_packet_id_raw : Slice → ℕ → Outcome (List ℕ)
set_packet_id_raw s id = write_word s 2 id

unfoldable pub get_test_id : Slice → Outcome ℕ
get_test_id s = read_word s 1

-- A word that is no discriminant makes an invalid value of the enum.
unfoldable pub message_type_of : ℕ → Outcome MessageType
message_type_of w =
    if w == 0
    then ok init
    else if w == 1
    then ok measurement
    else if w == 2
    then ok last
    else fault undefined

unfoldable pub get_message_type : Slice → Outcome MessageType
get_message_type s = read_word s 0 >>= message_type_of

unfoldable pub len : MessageHeader → ℕ
len h = len_header
