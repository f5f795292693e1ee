-- ===== src/Tests.antt =====
-- Runs on concrete inputs, and the theorems applied to them.
mod Values
mod Frames
mod Engines
mod Sandboxes
mod Restoring
mod Limits
mod Requests
mod Ports
mod EnvFile
mod Sessions
mod Dispatch
mod Files
mod Installations
mod Command
