-- ===== src/TaskCode.antt =====
-- src/domain/task_code_store.py, src/domain/task_code_redeem_service.py and
-- src/infra/file_task_code_store.py: codes that are redeemed for a job and its token, and their files.
pub mod Record
pub mod Redeem
pub mod Codes
pub mod Whole
mod Grants
mod Tests
