-- ===== src/Transfer.antt =====
-- A transfer from src/node/sender.rs to src/node/receiver.rs: what the loop of the sender hands to the
-- kernel, and what the receiver counts of it.
pub mod Ordered
pub mod Handed
pub mod Wire
pub mod Datagrams
pub mod Counting
pub mod Shuffled
pub mod Arriving
pub mod Calls
pub mod Spoken
pub mod Results
pub mod Complete
