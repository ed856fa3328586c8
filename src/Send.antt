-- ===== src/Send.antt =====
-- internal/app/send.go, react.go, pins.go, polls.go, viewed_receipts.go: what the App sends. The
-- client is a parameter; the App's state is the last timestamp, the requests that the client has
-- been given, the receipts among them, and the vote counters that the client keeps.
pub mod Content
pub mod Mentions
pub mod StyleArguments
pub mod Prepare
pub mod Message
pub mod Emoji
pub mod Pinning
pub mod PollChecks
pub mod Polling
pub mod Receipt
pub mod Deliver
pub mod Delivery
pub mod Outcomes
pub mod Results
pub mod Refusals
pub mod Voting
pub mod PinGroups
pub mod ReceiptChecks
