-- ===== src/Policy.antt =====
-- internal/app/recipient.go and policy.go: where a message goes, and the allowlist.
pub mod Targets
pub mod Allowlist
pub mod Arguments
pub mod Resolving
pub mod Naming
pub mod Allowing
