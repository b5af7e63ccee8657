-- ===== src/Replication.antt =====
-- Replication: slave-replication.cpp and replication.cpp.
pub mod Slave
pub mod Replay
pub mod Master
pub mod Propagation
pub mod Agreement
pub mod Acknowledged
pub mod Waiting
pub mod Handshake
pub mod Info
pub mod Timeout
mod Examples
