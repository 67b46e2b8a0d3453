-- ===== src/Authorizer.antt =====
-- The model gateway's authorizer: services/gateway-authorizer/internal/gateway.
pub mod Http
pub mod Claims
pub mod Jwks
pub mod KeyTrust
pub mod Verifier
pub mod TokenTrust
pub mod Entitlement
pub mod Staleness
pub mod Body
pub mod Identity
pub mod Trust
pub mod Forwarding
pub mod Handler
pub mod Access
pub mod Completeness
pub mod Settings
pub mod SettingsExamples
pub mod Service
pub mod Sample
pub mod Examples
