-- ===== src/Publication.antt =====
-- Publications to the data plane, from their request to their delivery: data_plane_publications.go,
-- publication_replay.go, publication_invalidation.go and publication_delivery.go of
-- services/control-service/internal/repository, and worker.go of internal/publicationrelay.
pub mod Tables
pub mod Delivery
pub mod Latest
pub mod Lease
pub mod Completion
pub mod Round
pub mod Selection
pub mod Withdrawn
pub mod Queue
pub mod Invalidation
pub mod Pairing
pub mod Agreement
pub mod Lifecycle
pub mod Steps
pub mod Sound
pub mod Reachable
pub mod Once
pub mod Relay
pub mod Settled
pub mod Examples
pub mod StoreExamples
