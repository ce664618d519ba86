-- ===== src/Queue.antt =====
-- src/infra/file_worker_queue.py and src/infra/file_queue_records.py: the queue of jobs as files.
pub mod Record
pub mod Files
pub mod Ops
mod Steps
mod Claims
mod Leases
mod Returns
mod Tests
