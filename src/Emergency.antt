-- ===== src/Emergency.antt =====
-- Emergency access: internal/domain/emergency_access.go,
-- internal/service/emergency_access_service.go and
-- internal/repository/gormrepo/emergency_access.go.
pub mod Record
pub mod Service
pub mod Lifecycle
pub mod Accounting
pub mod Safety
pub mod Provenance
