-- ===== src/Permission.antt =====
-- What a role may do in an organization: internal/domain/permissions.go and
-- internal/service/permission_service.go.
pub mod Matrix
pub mod Service
pub mod ReadOnly
