-- ===== src/Engine.antt =====
-- DockerEngine of internal/controller/docker.go: what the service asks of the Docker engine, and in
-- which order.
pub mod Model
pub mod Monad
pub mod Requests
pub mod Sandboxes
pub mod Images
pub mod Lifecycle
pub mod Waiting
pub mod Pulls
pub mod Commands
pub mod Files
pub mod Tokens
pub mod SnapshotImages
pub mod Snapshots
pub mod Effects
