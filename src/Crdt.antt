-- ===== src/Crdt.antt =====
-- pkg/crdt/crdt.go: the replicated data types. Each child models one of them.
pub mod OrSet
pub mod LwwRegister
pub mod Rga
pub mod Merkle
mod Tests
