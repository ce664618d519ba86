-- ===== src/Compose.antt =====
-- The composition of a plan: its steps, the order that they run in, what they take from one another.
pub mod Plan
pub mod Ordering
pub mod Depends
pub mod Refs
pub mod Validate
mod Tests
