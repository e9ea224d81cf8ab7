-- ===== src/Service.antt =====
-- src/service/pi-threads-service.ts: the class PiThreadsService and the functions beside it.
pub mod Threads
pub mod Paging
pub mod Messages
pub mod Turns
pub mod Calls
pub mod Send
pub mod Mutation
pub mod Machine
pub mod Exclusion
pub mod Slash
pub mod Settings
pub mod Selected
pub mod LastEntries
pub mod Overlay
pub mod Order
mod Tests
