-- ===== src/Transport.antt =====
-- src/transport: how requests reach the service.
pub mod Router
pub mod Sse
