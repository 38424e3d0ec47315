-- ===== src/Net.antt =====
-- src/net: the header of the messages, and the socket.
pub mod Header
pub mod Parse
pub mod Socket
pub mod Options
