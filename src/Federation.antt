-- ===== src/Federation.antt =====
-- pkg/federation: the rendezvous server, its store and its limits.
pub mod Store
pub mod Limits
pub mod NodeIds
pub mod Numbers
pub mod Handler
mod Tests
