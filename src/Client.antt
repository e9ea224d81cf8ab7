-- ===== src/Client.antt =====
-- src/client/: the client of a socket.
pub mod Socket
pub mod Sse
mod Tests
