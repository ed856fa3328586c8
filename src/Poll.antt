-- ===== src/Poll.antt =====
-- internal/signal/poll*.go: polls, reduced from the events that a client has seen.
pub mod State
pub mod Creation
pub mod Observe
pub mod Reduce
pub mod Encoding
pub mod Evidence
pub mod Show
pub mod Validation
pub mod Tally
pub mod Retained
pub mod Order
pub mod Outcome
pub mod Counting
pub mod Lifecycle
pub mod Retention
pub mod Relevance
pub mod Authority
