-- ===== src/Scheduler.antt =====
-- backend/app/scheduler/service.py, by the parts of that file.
pub mod Queue
pub mod Policy
pub mod Rules
pub mod Claim
pub mod Resolve
pub mod Reaper
pub mod Index
