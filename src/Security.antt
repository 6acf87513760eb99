-- ===== src/Security.antt =====
-- pkg/security: capability tokens and the audit log.
pub mod Capability
pub mod Audit
pub mod Pow
mod Tests
