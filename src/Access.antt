-- ===== src/Access.antt =====
-- The publications of model access: services/internal/gatewayaccess.
pub mod Snapshot
pub mod Canonical
pub mod Examples
