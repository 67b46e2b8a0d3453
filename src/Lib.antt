-- ===== src/Lib.antt =====
-- A verification library for the Agent Enterprise Protocol (AEP): the Go services that decide which
-- data an agent may read and which models it may call.
--
-- Parts. The control service (services/control-service) keeps users, roles, teams and rules, and
-- computes from them what a user may retrieve. The gateway authorizer (services/gateway-authorizer)
-- stands before the model gateway: for every inference request it verifies the bearer token, checks
-- the licence behind it, asks the control service for the user's identity, and forwards the request
-- with headers that the gateway trusts. What the gateway serves is published from the control
-- service through a queue of intents, which workers claim and acknowledge. The limits that the
-- gateway enforces are named by headers that both sides compute (services/internal/gatewaypolicy).
--
-- Files. Common holds the shared lists, maps, texts and results.
--   Scope      services/control-service/internal/app/datascope.go and, for the tables it walks,
--              `createTeam` of internal/httpapi/rbac_handlers.go. Teams has `subtreeIDs`, Rules the
--              rules, Context `BuildRetrievalContext` and `Allows`, Creation `createTeam`; Forest,
--              Ends, Covers and Decision are the proofs.
--   Policy     services/internal/gatewaypolicy/policy.go: Limits has the code, Keys, Scoped and
--              Presence the proofs.
--   Authorizer services/gateway-authorizer/internal/gateway: Jwks, Verifier and Entitlement model
--              verifier.go, Body, Http, Trust and Handler model handler.go, Identity models
--              identity.go, Settings models config.go; KeyTrust, TokenTrust, Staleness,
--              Forwarding, Access and Completeness are the proofs, and Service joins the handler and the
--              verifier.
--   Publication services/control-service/internal: Tables and Delivery model
--              repository/publication_delivery.go, Selection and Invalidation publication_invalidation.go, Queue
--              data_plane_publications.go and publication_replay.go, Relay the cycle of
--              publicationrelay/worker.go; Latest, Lease, Completion and Round are the proofs about
--              a delivery, Pairing, Agreement, Lifecycle, Steps, Sound and Reachable those about every store
--              that the transactions reach, Once, Withdrawn and Settled those about requests,
--              invalidations and cycles.
--   Projector  services/control-service/internal/publicationrelay: Markers, Routes and Project model
--              projector.go, Policies and Project policies.go, Grant and Access access_projector.go,
--              Cluster the namespace with the client's calls; Evidence, Fenced and Granted are the
--              proofs.
--   Grants     services/control-service/internal: Queue models repository/model_access_publications.go,
--              Delivery model_access_delivery.go and model_access_delivery_guard.go, Relay
--              publicationrelay/access_worker.go; Captured, Checked, Holder and Vouched are the proofs.
--   Assets     services/control-service/internal: Slug models httpapi/identifier_slug.go, Registry
--              assettypes/registry.go; Legal, Unique and Validation are the proofs.
--   Login      services/control-service/internal/httpapi/auth_security.go: Backoff, Limits and Source
--              have the code, Throttle the proofs about the table of failures.
--   License    services/control-service/internal/license/verifier.go: Claims, Json and Verifier have
--              the code, Validity the proofs.
--   Access     services/internal/gatewayaccess: Snapshot has the code of snapshot.go and of
--              workload_entitlement.go, Canonical the proofs.
-- The files whose names end in Examples hold tests and instances of the theorems.
--
-- How the model corresponds to the code. Names are those of the code in the spelling of this
-- language; a Go function that fails returns a `Result`, one that changes a structure takes its
-- state and returns it, and one that asks another service takes the answer as an argument. Times
-- are natural numbers of nanoseconds, in Publication and Grants of milliseconds. A table of the database is a
-- list of rows, a transaction a step from tables to tables that leaves them alone when it fails.
-- Texts are sequences of Unicode characters, with the length in bytes of their UTF-8;
-- `strings.ToLower` is modelled on ASCII, which the tests for the prefix "x-aep-" and for "bearer"
-- see no more of. A Go map is an association list; where the code ranges over a map, the list gives
-- the order. A map of teams lists the newest team first.
--
-- The namespace that the projector writes may be changed by others before each call, and each call
-- may fail; an environment, which the theorems quantify over, says so.
--
-- Bounds. The walk of `subtreeIDs` has no bound in the code; the model gives it one round more than
-- there are teams, and proves that this is enough on forests, which are what `createTeam` builds.
-- `format_int` has one round for each of the
-- 19 digits that a number of 64 bits can have. The other loops run over lists.
--
-- Not modelled. Base64, SHA-256 and the token library are parameters, with what the code relies on
-- as hypotheses. The decoders of JSON and of multipart bodies are given by their results. The SQL
-- of other parts, HTTP clients, locks, logging and the reverse proxy are left out, and so is the
-- rest of the control service, the reconciler, the operator and the client libraries.

pub mod Common
pub mod Scope
pub mod Policy
pub mod Authorizer
pub mod Publication
pub mod Projector
pub mod Grants
pub mod Assets
pub mod Login
pub mod License
pub mod Access
