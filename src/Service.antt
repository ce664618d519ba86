-- ===== src/Service.antt =====
-- src/domain/job_service.py: the service that creates, confirms and queues jobs for the API.
pub mod Formats
pub mod Blocking
pub mod World
pub mod Ops
mod Order
mod Attempts
mod Confirms
pub mod Create
mod Stored
mod Tests
