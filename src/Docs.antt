-- ===== src/Docs.antt =====
-- pkg/services/docs: collaborative documents, their operations and their wire format.
pub mod Op
pub mod Lines
pub mod Runes
pub mod Document
pub mod Presence
pub mod Service
mod Tests
