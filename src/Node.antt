-- ===== src/Node.antt =====
-- src/node: the two kinds of a node.
pub mod Create
pub mod Interval
pub mod Receiver
pub mod Sender
