-- ===== src/Feeds.antt =====
-- src/application/feed-subscriptions/schedule.ts: when a feed is read again, and how many at a time.
pub mod Backoff
pub mod Queue
