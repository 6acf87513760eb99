-- ===== src/Link.antt =====
-- pkg/link: the manager that spreads the traffic to a peer over several links.
pub mod MultiPath
mod Tests
