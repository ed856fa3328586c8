-- ===== src/Tests.antt =====
-- The theorems at concrete inputs, and runs of the definitions.
mod Polls
mod Reconnects
mod Requests
mod PinLists
mod Inboxes
mod Sending
mod Votes
mod Sends
mod Operations
mod GroupChanges
mod Stores
