-- ===== src/Pins.antt =====
-- internal/app/pin_list.go: the pinned messages of a chat, from a snapshot of its inbox.
pub mod Observation
pub mod Reducer
pub mod Listing
pub mod Observed
