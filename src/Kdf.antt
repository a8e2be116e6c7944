-- ===== src/Kdf.antt =====
-- Settings of the key derivation: internal/domain/kdf_config.go.
pub mod Config
pub mod Bounds
