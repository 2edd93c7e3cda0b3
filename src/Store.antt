-- ===== src/Store.antt =====
-- The package store, src/ap_store: its tables and blobs, its methods, and what they guarantee.
pub mod Records
pub mod Effects
pub mod Methods
pub mod Reads
pub mod Files
pub mod Writes
pub mod Publish
pub mod Settings
pub mod Listing
pub mod Pages
