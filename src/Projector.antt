-- ===== src/Projector.antt =====
-- The projection of publications to the cluster: projector.go and policies.go of
-- services/control-service/internal/publicationrelay.
pub mod Markers
pub mod Routes
pub mod Policies
pub mod Grant
pub mod Cluster
pub mod Project
pub mod Evidence
pub mod Fenced
pub mod Access
pub mod Granted
pub mod Examples
pub mod AccessExamples
