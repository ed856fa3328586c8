-- ===== src/Store.antt =====
-- internal/store: the tables that go-signal keeps beside signalmeow's own. A table is the list of
-- its rows in the order of their insertion.
pub mod Rows
pub mod Timers
pub mod TimerLaws
pub mod Projections
pub mod Seeding
pub mod PollKeys
pub mod Writing
pub mod Gathering
pub mod Reduced
