-- ===== src/Store.antt =====
-- src/infra/job_store.py and src/infra/job_store_migrations.py. The directory tree is a table from
-- the tenant, the job and the layout of its directory to what `json.loads` makes of its `job.json`.
-- The rest of the documentation stands in the modules below.
pub mod Payload
pub mod Migrate
pub mod Disk
pub mod Ops
pub mod Atomic
pub mod Writes
pub mod Conflicts
pub mod Creates
mod Migrated
pub mod Tests
