-- ===== src/Types.antt =====
-- internal/controller/types.go: what the service accepts as keys, images, names and paths.
pub mod Keys
pub mod Paths
pub mod Config
