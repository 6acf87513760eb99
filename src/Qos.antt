-- ===== src/Qos.antt =====
-- pkg/qos/qos.go: token buckets, traffic classes and their manager, and the hierarchy of buckets.
mod Pointers
pub mod Bucket
pub mod Class
pub mod Manager
pub mod Hierarchy
mod Tests
