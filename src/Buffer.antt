-- ===== src/Buffer.antt =====
-- The buffers of messages: src/util/msghdr.rs, src/util/msghdr_vec.rs, src/util/packet_buffer.rs.
pub mod Msghdr
pub mod MsghdrVec
pub mod PacketBuffer
