-- ===== src/License.antt =====
-- The verification of licences: services/control-service/internal/license/verifier.go.
pub mod Json
pub mod Claims
pub mod Verifier
pub mod Validity
pub mod Examples
