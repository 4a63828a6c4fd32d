-- ===== src/Decisions.antt =====
-- src/application/decision-pipeline: the work on decisions, apart from its circuit breaker.
pub mod Scheduler
