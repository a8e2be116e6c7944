-- ===== src/Collections.antt =====
-- The sharing of collections with members and teams: internal/service/collection_service.go.
pub mod Record
pub mod Service
pub mod Granting
pub mod Folders
pub mod Deleting
pub mod Reads
