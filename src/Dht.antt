-- ===== src/Dht.antt =====
-- pkg/dht: node ids, the routing table, the wire formats, proof of work and the node.
pub mod NodeId
pub mod Bucket
pub mod Table
pub mod Wire
pub mod Pow
pub mod Node
pub mod Raft
mod Tests
