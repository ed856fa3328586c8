-- ===== src/Identities.antt =====
-- internal/signal/identity.go, internal/store/identities.go and identity_sync.go: identity keys,
-- how far they are trusted, and safety numbers.
pub mod Trust
pub mod Table
pub mod Trusting
pub mod Numbers
