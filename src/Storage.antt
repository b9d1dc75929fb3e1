-- ===== src/Storage.antt =====
-- The object store on the local file system: crates/strix-storage/src/localfs.rs, with the tables
-- of db.rs.
pub mod Tables
pub mod Buckets
pub mod Locks
pub mod Put
pub mod Multipart
pub mod Cleanup
pub mod Listing
pub mod Copy
pub mod Delete
pub mod Read
pub mod Retained
pub mod Latest
