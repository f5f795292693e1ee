-- ===== src/Websocket.antt =====
-- internal/controller/websocket.go: the framing of a terminal's connection.
pub mod Defs
pub mod Reading
pub mod Loop
pub mod Limits
pub mod Writing
pub mod Progress
pub mod Handshake
