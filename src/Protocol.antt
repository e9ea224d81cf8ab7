-- ===== src/Protocol.antt =====
-- protocol/ and errors.ts: what the daemon, its transports and its clients exchange.
pub mod Errors
pub mod Events
pub mod Filters
pub mod Stream
pub mod TurnStream
pub mod JsonRpc
