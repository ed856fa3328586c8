-- ===== src/Inbox.antt =====
-- The inbox: internal/store/inbox.go, and internal/app/inbox.go and receipts.go on top of it.
pub mod Table
pub mod Order
pub mod Marks
pub mod Classify
pub mod Receive
pub mod Growth
pub mod Receiving
pub mod Receipts
pub mod Batches
pub mod Reading
pub mod Pages
pub mod Windows
pub mod Split
pub mod Entries
pub mod Lookups
pub mod Paging
