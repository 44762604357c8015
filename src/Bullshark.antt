-- ===== src/Bullshark.antt =====
-- crates/bullshark: the protocol that orders a graph of vertices, which is built in rounds.
pub mod Members
pub mod Broadcast
pub mod Cells
pub mod Dag
pub mod Replica
