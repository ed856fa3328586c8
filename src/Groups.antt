-- ===== src/Groups.antt =====
-- internal/signal/groups*.go: the state of a group and its changes.
pub mod State
pub mod Members
pub mod Changes
pub mod Named
pub mod Settings
pub mod Leaving
pub mod Accepting
pub mod Promoting
pub mod Banning
pub mod Updating
pub mod AdminCounts
pub mod Promotions
pub mod Remaining
