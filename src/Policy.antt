-- ===== src/Policy.antt =====
-- The limits of the gateway: services/internal/gatewaypolicy/policy.go.
pub mod Limits
pub mod Keys
pub mod Scoped
pub mod Presence
mod Examples
