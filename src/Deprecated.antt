-- ===== src/Deprecated.antt =====
-- deprecated/: an earlier version of the cluster. The list of nodes of its master, the queue of its
-- scheduler, the scheduler, and the type of a message.
pub mod Nodes
pub mod TaskQueue
pub mod Assigning
pub mod Messages
mod Tests
