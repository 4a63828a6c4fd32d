-- ===== src/Routing.antt =====
-- src/ai/routing and the model catalog: which model a task is sent to. The types are those of
-- src/ai/models/contracts.ts and src/ai/providers/contracts.ts that routing reads.
pub mod Catalog
pub mod Resolver
pub mod Eligibility
