-- ===== src/Scheduler/Index.antt =====
-- The unique index on in_progress rows of backend/app/scheduler/models.py, under the modelled writes
-- of backend/app/scheduler/service.py.
pub mod Writes
pub mod Operations
pub mod Resolution
pub mod Interleaving
