-- ===== src/QuerySubscription.antt =====
-- src/lib/QuerySubscription.ts: polls a query and emits what is new, each item once within a
-- window of poll cycles.
pub mod Hash
pub mod Tracking
pub mod Emission
pub mod Poll
pub mod OnePoll
pub mod Unseen
pub mod Once
mod Tests
