-- ===== src/Request.antt =====
-- internal/signal/send.go and the checks that it calls: what an outgoing request may hold.
pub mod Content
pub mod Styles
pub mod PollCheck
pub mod PinCheck
pub mod StoryCheck
pub mod MessageCheck
pub mod Check
pub mod Kinds
