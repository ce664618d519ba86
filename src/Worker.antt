-- ===== src/Worker.antt =====
-- src/domain/worker_service.py and the modules that it calls for one claim.
pub mod Retry
pub mod Attempts
pub mod World
pub mod Ops
mod Counting
mod Parts
mod Loop
mod Settles
pub mod Stuck
mod Tests
