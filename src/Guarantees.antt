-- ===== src/Guarantees.antt =====
-- What holds of the package store after any run of requests.
pub mod Permanence
pub mod Blobs
pub mod Audit
pub mod Decisions
pub mod Holds
