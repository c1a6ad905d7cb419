-- ===== src/Jobs.antt =====
-- backend/app/jobs: durable background jobs.
pub mod Model
pub mod Executor
pub mod Enqueue
pub mod Recovery
