-- ===== src/Examples.antt =====
-- The theorems at concrete inputs, and tests of the definitions that they are about.
mod Capabilities
mod Routes
mod Budgets
mod Eligible
mod Journal
mod Rules
mod Retries
mod Locks
mod Schedulers
mod Synchronising
mod Deletions
mod Envelopes
mod Feeds
mod Recoveries
