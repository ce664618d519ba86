-- ===== src/Job.antt =====
-- The job: its data model (domain/models.py) and its life cycle (domain/state_machine.py).
pub mod Data
pub mod Status
