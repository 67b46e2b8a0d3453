-- ===== src/Login.antt =====
-- The throttling of logins: services/control-service/internal/httpapi/auth_security.go.
pub mod Backoff
pub mod Limits
pub mod Throttle
pub mod Source
pub mod Examples
