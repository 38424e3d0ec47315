-- ===== src/Packets.antt =====
-- src/util/mod.rs: what the receiver makes of the datagrams in a buffer.
use nperf.Base.{
  ℕ, zero, suc, ◌+◌, ◌-◌, ◌/◌, ◌%◌, ◌*◌, min, Bool, true, false, ◌&&◌, List, [], ◌∷◌, Option, none,
  some, ltb, ◌==◌, if◌then◌else◌, add64, sub64, add32, u32_mod, is_positive_i64, Outcome, ok, fault,
  Fault, panicked, ◌>>=◌,
}
use nperf.Net.Header.{Slice, get_packet_id}
use nperf.Statistic.{Statistic}
use nperf.Buffer.Msghdr.{Msghdr, Cmsg}
use nperf.Buffer.PacketBuffer.{Mmsghdr}
pub mod Accounting
pub mod Distinct
pub mod Chunks

-- libc's SOL_UDP and UDP_GRO.
abbrev pub sol_udp : ℕ
sol_udp = 17

abbrev pub udp_gro : ℕ
udp_gro = 104

-- By how much the next expected id rises, and the counters.
unfoldable pub process_packet_number : ℕ → ℕ → Statistic → ℕ × Statistic
process_packet_number packet_id next_packet_id s =
    if packet_id == next_packet_id
    then (1, s)
    else if ltb next_packet_id packet_id
    then (
      add64 lost 1,
      record s { amount_omitted_datagrams = add64 s.amount_omitted_datagrams lost },
    )
    else if is_positive_i64 s.amount_omitted_datagrams
    then (
      0,
      record s {
        amount_omitted_datagrams = sub64 s.amount_omitted_datagrams 1;
        amount_reordered_datagrams = add64 s.amount_reordered_datagrams 1;
      },
    )
    else (0, record s { amount_duplicated_datagrams = add64 s.amount_duplicated_datagrams 1 })
  where
    lost : ℕ
    lost = packet_id - next_packet_id

unfoldable pub process_packet : Slice → ℕ → Statistic → Outcome (ℕ × Statistic)
process_packet buffer next_packet_id s =
    get_packet_id buffer >>= λ id. ok (process_packet_number id next_packet_id s)

-- `n` chunks of `size` bytes, the last one of what is left.
unfoldable pub chunks_from : List ℕ → ℕ → ℕ → ℕ → ℕ → List Slice
chunks_from m size start rest zero = []
chunks_from m size start rest (suc n) =
    record { memory = m; start = start; len = min size rest }
    ∷ chunks_from m size (start + size) (rest - size) n

-- `buffer.chunks(size)`; a size of zero panics.
unfoldable pub chunks : Slice → ℕ → Outcome (List Slice)
chunks b size =
    if size == 0
    then fault panicked
    else ok (chunks_from b.memory size b.start b.len ((b.len + (size - 1)) / size))

-- The loop of `process_packet_buffer`: `next_packet_id` is the same for every chunk.
unfoldable pub process_all : List Slice → ℕ → ℕ → Statistic → Outcome (ℕ × Statistic)
process_all [] next_packet_id amount s = ok (amount, s)
process_all (b ∷ bs) next_packet_id amount s =
    process_packet b next_packet_id s >>= λ r. process_all bs next_packet_id (add64 amount r.0) r.1

unfoldable pub process_packet_buffer : Slice → ℕ → ℕ → Statistic → Outcome (ℕ × Statistic)
process_packet_buffer buffer datagram_size next_packet_id s =
    chunks buffer datagram_size >>= λ bs. process_all bs next_packet_id 0 s

unfoldable pub get_gso_size_from_cmsg : List Cmsg → Option ℕ
get_gso_size_from_cmsg [] = none
get_gso_size_from_cmsg (c ∷ cs) =
    if c.level == sol_udp && c.cmsg_type == udp_gro then some c.value else get_gso_size_from_cmsg cs

-- The loop of `process_packet_msghdr`: the next expected id, the number of packets, the counters.
unfoldable pub process_chunks : List Slice → ℕ → ℕ → Statistic → Outcome (ℕ × ℕ × Statistic)
process_chunks [] next_packet_id received s = ok (next_packet_id, received, s)
process_chunks (b ∷ bs) next_packet_id received s = process_packet b next_packet_id s >>= λ r.
    process_chunks bs (add64 next_packet_id r.0) (add64 received 1) r.1

-- `amount_received_bytes as u32` where no size came with the message.
unfoldable pub single_packet_size : Msghdr → ℕ → ℕ
unfolding get_gso_size_from_cmsg
single_packet_size h amount_received_bytes = elim (get_gso_size_from_cmsg h.msg_control) [
  | some gso_size ↦ gso_size
  | none ↦ amount_received_bytes % u32_mod
]

unfoldable pub process_packet_msghdr : Msghdr → ℕ → ℕ → Statistic → Outcome (ℕ × ℕ × Statistic)
process_packet_msghdr h amount_received_bytes next_packet_id s =
    if h.msg_iovlen == 1
    then (chunks (record { memory = h.iov_base; start = 0; len = amount_received_bytes })
          (single_packet_size h amount_received_bytes)
        >>= λ bs. process_chunks bs next_packet_id 0 s)
    else fault panicked

-- The sum is a u32; the loop breaks at `amount_msghdr`.
unfoldable pub total_bytes : List Mmsghdr → ℕ → ℕ → ℕ
total_bytes [] amount_msghdr sum = sum
total_bytes (m ∷ ms) zero sum = sum
total_bytes (m ∷ ms) (suc n) sum = total_bytes ms n (add32 sum m.msg_len)

unfoldable pub get_total_bytes : List Mmsghdr → ℕ → ℕ
unfolding total_bytes
get_total_bytes ms amount_msghdr = total_bytes ms amount_msghdr 0
