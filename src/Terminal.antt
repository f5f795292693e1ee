-- ===== src/Terminal.antt =====
-- internal/controller/terminal.go: the windows of the terminal and what they send.
pub mod Hub
pub mod Workdir
pub mod Messages
pub mod Session
pub mod Serve
