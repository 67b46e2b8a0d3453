-- ===== src/Assets.antt =====
-- The identifiers of resources and the types of assets: identifier_slug.go and assettypes/registry.go
-- of services/control-service/internal.
pub mod Slug
pub mod Legal
pub mod Unique
pub mod Registry
pub mod Validation
pub mod Examples
