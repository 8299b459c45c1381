-- ===== src/Store.antt =====
-- internal/store/file.go: the file store.
pub mod Items
pub mod History
pub mod State
pub mod Disk
pub mod Changes
pub mod Consistent
pub mod File
pub mod Transitions
pub mod Durable
pub mod Listing
pub mod Open
