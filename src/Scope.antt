-- ===== src/Scope.antt =====
-- The data scope of one user: services/control-service/internal/app/datascope.go, and the team
-- table that services/control-service/internal/httpapi/rbac_handlers.go keeps.
pub mod Teams
pub mod Forest
pub mod Ends
pub mod Creation
pub mod Rules
pub mod Context
pub mod Covers
pub mod Decision
mod Examples
