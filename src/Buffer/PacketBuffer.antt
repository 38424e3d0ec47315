-- ===== src/Buffer/PacketBuffer.antt =====
-- src/util/packet_buffer.rs: the buffers of a node, and the pool of the indices of those that are
-- not in flight. The last entry of the vector `index_pool` is the head of the list.
use mathlib.Core.List.{reverse}
use nperf.Base.{
  ℕ, zero, suc, ◌+◌, ◌*◌, ◌-◌, List, [], ◌∷◌, ◌++◌, map, Option, none, some, leb, if◌then◌else◌,
  length, get_elem?, set, range_from, add64, mul64, sub64, Outcome, ok, err, Error,
  buffer_pointer_out_of_bounds, msghdr_out_of_bounds, no_buffers_left, fault, Fault, panicked,
  ◌>>=◌,
}
use nperf.Config.{length_msghdr_control_message_buffer}
use nperf.Net.Header.{Slice, set_packet_id_raw}
use nperf.Buffer.Msghdr.{Msghdr, WrapperMsghdr, buffer_of, move_msghdr}
use nperf.Buffer.MsghdrVec.{MsghdrVec}
pub mod Ids
pub mod Pool

pub record Mmsghdr : Type 0 where
  pub msg_hdr : Msghdr
  pub msg_len : ℕ

pub record PacketBuffer : Type 0 where
  pub mmsghdr_vec : List Mmsghdr
  pub datagram_size : ℕ
  pub packets_amount_per_msghdr : ℕ
  pub index_pool : List ℕ
  pub pool_capacity : ℕ

abbrev to_mmsghdr : WrapperMsghdr → Mmsghdr
to_mmsghdr w = record { msg_hdr = move_msghdr w; msg_len = 0 }

-- `(0..n).collect()` allocates the room for its n entries.
unfoldable pub new : MsghdrVec → PacketBuffer
new v = record {
  mmsghdr_vec = map to_mmsghdr v.msghdr_vec;
  datagram_size = v.datagram_size;
  packets_amount_per_msghdr = v.packets_amount_per_msghdr;
  index_pool = reverse (range_from 0 (length v.msghdr_vec));
  pool_capacity = length v.msghdr_vec;
}

unfoldable pub get_msghdr_from_index : PacketBuffer → ℕ → Outcome Msghdr
get_msghdr_from_index b i = elim (get_elem? b.mmsghdr_vec i) [
  | some m ↦ ok m.msg_hdr
  | none ↦ err msghdr_out_of_bounds
]

unfoldable pub get_buffer_pointer_from_index : PacketBuffer → ℕ → Outcome Slice
get_buffer_pointer_from_index b i = elim (get_elem? b.mmsghdr_vec i) [
  | some m ↦ ok (buffer_of m.msg_hdr)
  | none ↦ err buffer_pointer_out_of_bounds
]

abbrev pub reset_fields : Msghdr → Msghdr
reset_fields h = record h { msg_flags = 0; msg_controllen = length_msghdr_control_message_buffer }

abbrev reset_mmsghdr : Mmsghdr → Mmsghdr
reset_mmsghdr m = record m { msg_hdr = reset_fields m.msg_hdr }

unfoldable pub reset_msghdr_fields : PacketBuffer → PacketBuffer
reset_msghdr_fields b = record b { mmsghdr_vec = map reset_mmsghdr b.mmsghdr_vec }

-- `&mut msghdr_buffer[start..]`, and the new id there.
unfoldable pub stamp : Msghdr → ℕ → ℕ → Outcome Msghdr
stamp h start id =
    if leb start h.iov_len
    then (set_packet_id_raw (record { memory = h.iov_base; start = start; len = h.iov_len - start })
          id
        >>= λ m. ok (record h { iov_base = m }))
    else fault panicked

-- The loop over the packets of one buffer, from packet `i` on: `n` packets.
unfoldable pub stamp_packets : ℕ → ℕ → ℕ → ℕ → Msghdr → Outcome Msghdr
stamp_packets zero i datagram_size id h = ok h
stamp_packets (suc n) i datagram_size id h = stamp h (mul64 i datagram_size) id >>= λ h'.
    stamp_packets n (i + 1) datagram_size (add64 id 1) h'

-- The loop over the buffers, at most `limit` of them: the buffers and the number of used ids.
unfoldable pub stamp_buffers : ℕ → ℕ → ℕ → ℕ → ℕ → List Mmsghdr → Outcome (List Mmsghdr × ℕ)
stamp_buffers limit per datagram_size id used [] = ok ([], used)
stamp_buffers zero per datagram_size id used (m ∷ ms) = ok (m ∷ ms, used)
stamp_buffers (suc limit) per datagram_size id used (m ∷ ms) =
    stamp_packets per 0 datagram_size (add64 id used) m.msg_hdr >>= λ h.
    stamp_buffers limit per datagram_size id (add64 used per) ms >>= λ r.
    ok (record m { msg_hdr = h } ∷ r.0, r.1)

-- `amount_packets.unwrap_or(mmsghdr_vec_len)`
abbrev pub limit_of : Option ℕ → PacketBuffer → ℕ
limit_of none b = length b.mmsghdr_vec
limit_of (some n) b = n

unfoldable pub add_packet_ids : ℕ → Option ℕ → PacketBuffer → Outcome (ℕ × PacketBuffer)
add_packet_ids packet_id amount_packets b =
    stamp_buffers (limit_of amount_packets b) b.packets_amount_per_msghdr b.datagram_size packet_id
      0 b.mmsghdr_vec
    >>= λ r. ok (r.1, record b { mmsghdr_vec = r.0 })

unfoldable pub add_packet_ids_to_msghdr : ℕ → ℕ → PacketBuffer → Outcome (ℕ × PacketBuffer)
add_packet_ids_to_msghdr packet_id index b = elim (get_elem? b.mmsghdr_vec index) [
  | none ↦ err buffer_pointer_out_of_bounds
  | some m ↦
      stamp_packets b.packets_amount_per_msghdr 0 b.datagram_size packet_id m.msg_hdr >>= λ h. ok (
        b.packets_amount_per_msghdr,
        record b { mmsghdr_vec = set b.mmsghdr_vec index (record m { msg_hdr = h }) },
      )
]

-- `index_pool.pop()`
unfoldable pub get_buffer_index : PacketBuffer → Outcome ℕ × PacketBuffer
get_buffer_index b = elim b.index_pool [
  | [] ↦ (err no_buffers_left, b)
  | i ∷ rest ↦ (ok i, record b { index_pool = rest })
]

unfoldable pub get_pool_inflight : PacketBuffer → ℕ
get_pool_inflight b = sub64 b.pool_capacity (length b.index_pool)

-- `grow capacity needed` is what the allocator of a vector chooses when the room is not enough.
module _ (grow : ℕ → ℕ → ℕ) where
  -- The appended indices, the first of them first in `indices`.
  unfoldable pub return_buffer_index : List ℕ → PacketBuffer → PacketBuffer
  return_buffer_index indices b =
      let pool = reverse indices ++ b.index_pool in
      record b {
        index_pool = pool;
        pool_capacity =
            if leb (length pool) b.pool_capacity
            then b.pool_capacity
            else grow b.pool_capacity (length pool);
      }
