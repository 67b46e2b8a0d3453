-- ===== src/Publication/Queue.antt =====
-- data_plane_publications.go: `QueueDataPlanePublication`, `QueueGatewayPublication`,
-- `queuePublication` and `insertPublication`; publication_replay.go; and
-- publication_invalidation.go: `QueueReferenceInvalidations`, as steps of the store of one
-- deployment. A transaction that fails leaves the store as it was. `id` is a fresh UUID; the primary
-- and the unique keys of the tables refuse a second row, as migration 046 declares them. `derive`
-- stands for the derivation of a snapshot from the catalog, which reads the store only.
use agent_enterprise_protoco.Common.{
  ℕ, ◌+◌, String, Bool, false, not, ◌||◌, Option, none, some, List, [], ◌∷◌, ltb, if◌then◌else◌,
  any, ◌==◌, nat_eq, string_eq,
}
use agent_enterprise_protoco.Common.Results.{Result, ok, err, ◌>>=◌}
use agent_enterprise_protoco.Publication.Tables.{Publication, OutboxRow, Tables, latest}
use agent_enterprise_protoco.Publication.Selection.{Limit, InvalidationSnapshot}

pub data QueueError : Type 0 where
  key_conflict revision_conflict duplicate_key not_found not_latest references_changed
        invalid_selection failed_read :
      QueueError

pub record Snapshot : Type 0 where
  pub revision : String
  pub content_hash : String
  pub payload : String

-- What the audit rows of publications differ in.
pub record AuditEntry : Type 0 where
  pub actor : String
  pub action : String
  pub resource_id : String
  pub reason : String

-- The row of gateway_reference_invalidations.
pub record Signal : Type 0 where
  pub version : ℕ
  pub acknowledged_version : ℕ

pub record Store : Type 0 where
  pub tables : Tables
  pub snapshots : List Snapshot
  pub next_sequence : ℕ
  pub audit : List AuditEntry
  pub signal : Signal

unfoldable pub find_snapshot : String → List Snapshot → Option Snapshot
find_snapshot revision [] = none
find_snapshot revision (n ∷ ns) =
    let rest = find_snapshot revision ns in if n.revision == revision then some n else rest

-- `ON CONFLICT DO NOTHING`: the first snapshot of a revision stays.
unfoldable pub save_snapshot : Snapshot → List Snapshot → List Snapshot
save_snapshot n ns = elim (find_snapshot n.revision ns) [ none ↦ n ∷ ns | some _ ↦ ns ]

unfoldable pub find_key : String → List Publication → Option Publication
find_key key_hash [] = none
find_key key_hash (p ∷ ps) =
    let rest = find_key key_hash ps in if p.idempotency_key_hash == key_hash then some p else rest

unfoldable pub find_operation : String → List Publication → Option Publication
find_operation id [] = none
find_operation id (p ∷ ps) =
    let rest = find_operation id ps in if p.operation_id == id then some p else rest

-- A row that the keys of the publications or of the outbox refuse.
unfoldable pub is_duplicate : (id key_hash : String) → Tables → Bool
is_duplicate id key_hash s =
    any (λ p. p.operation_id == id) s.publications
    || any (λ p. p.idempotency_key_hash == key_hash) s.publications
    || any (λ o. o.operation_id == id) s.outbox

unfoldable pub new_publication : (id key_hash request_hash : String) → ℕ → Snapshot → Publication
new_publication id key_hash request_hash sequence n = record {
  operation_id = id;
  sequence = sequence;
  idempotency_key_hash = key_hash;
  request_hash = request_hash;
  revision = n.revision;
  content_hash = n.content_hash;
  phase = "queued";
  error_code = none;
}

-- The columns that migration 047 adds have these defaults.
unfoldable pub new_row : ℕ → String → OutboxRow
new_row now id = record {
  operation_id = id;
  claim_token = none;
  lease_until = none;
  attempts = 0;
  next_attempt_at = now;
  completed_at = none;
}

abbrev pub Queued : Type 0
Queued = Result QueueError Publication × Store

-- The rows that an insertion writes.
unfoldable pub with_publication : ℕ → String → Publication → List Snapshot → Store → Store
with_publication now actor p ns s = record s {
  tables = record {
    publications = p ∷ s.tables.publications;
    outbox = new_row now p.operation_id ∷ s.tables.outbox;
  };
  snapshots = ns;
  next_sequence = s.next_sequence + 1;
  audit =
      record { actor = actor; action = "publish"; resource_id = p.operation_id; reason = "" }
      ∷ s.audit;
}

-- Whether the stored snapshot of the revision has the same content.
unfoldable pub is_same_content : Snapshot → List Snapshot → Bool
is_same_content n ns = elim (find_snapshot n.revision ns) [
  | none ↦ false
  | some existing ↦ existing.content_hash == n.content_hash
]

unfoldable pub insert_publication :
    ℕ → (id key_hash request_hash actor : String) → Snapshot → Store → Queued
insert_publication now id key_hash request_hash actor n s =
    let saved = save_snapshot n s.snapshots in
    if not (is_same_content n saved)
    then (err revision_conflict, s)
    else if is_duplicate id key_hash s.tables
    then (err duplicate_key, s)
    else let p = new_publication id key_hash request_hash s.next_sequence n in
      (ok p, with_publication now actor p saved s)

-- What a request whose key is known is answered with.
unfoldable pub repeated : String → Publication → Store → Queued
repeated request_hash p s =
    if not (p.request_hash == request_hash) then (err key_conflict, s) else (ok p, s)

unfoldable pub queue_publication :
    ℕ
    → (id key_hash request_hash actor : String) → (derive : Store → Result QueueError Snapshot)
    → Store
    → Queued
queue_publication now id key_hash request_hash actor derive s =
    elim (find_key key_hash s.tables.publications) [
      | some p ↦ repeated request_hash p s
      | none ↦ elim (derive s) [
        | err e ↦ (err e, s)
        | ok n ↦ insert_publication now id key_hash request_hash actor n s
      ]
    ]

-- The payload of the newest intent, joined with its snapshot.
unfoldable pub latest_payload : Store → Option String
latest_payload s = elim (latest s.tables.publications) [
  | none ↦ none
  | some p ↦ elim (find_snapshot p.revision s.snapshots) [
    | none ↦ none
    | some n ↦ if n.content_hash == p.content_hash then some n.payload else none
  ]
]

-- The limits that a publication of the gateway freezes: the table's, or else those of the newest
-- intent. `decode` is the decoding of a payload.
unfoldable pub frozen_limits :
    (include_limits : Bool)
    → (limits : Store → Result QueueError (List Limit))
    → (decode : String → Result QueueError InvalidationSnapshot) → Store
    → Result QueueError (Option (List Limit))
frozen_limits include_limits limits decode s =
    if include_limits then (limits s >>= (λ items. ok (some items))) else elim (latest_payload s) [
      | none ↦ ok none
      | some payload ↦ decode payload >>= (λ state. ok state.gateway_limits)
    ]

unfoldable pub queue_gateway_publication :
    ℕ
    → (id key_hash request_hash actor : String) → (include_limits : Bool)
    → (limits : Store → Result QueueError (List Limit))
    → (decode : String → Result QueueError InvalidationSnapshot)
    → (derive : Store → Option (List Limit) → Result QueueError Snapshot) → Store
    → Queued
queue_gateway_publication now id key_hash request_hash actor include_limits limits decode derive =
    queue_publication now id key_hash request_hash actor
      (λ s. frozen_limits include_limits limits decode s >>= derive s)

unfoldable pub is_pending : Signal → Bool
is_pending signal = ltb signal.acknowledged_version signal.version

-- The rest of a replay once the source and the newest intent have been read.
unfoldable pub replay_latest :
    ℕ → (id key_hash request_hash actor : String) → (source newest : Publication) → Store → Queued
replay_latest now id key_hash request_hash actor source newest s =
    if not (newest.operation_id == source.operation_id) || not (newest.sequence == source.sequence)
    then (err not_latest, s)
    else if is_pending s.signal
    then (err references_changed, s)
    else elim (find_snapshot source.revision s.snapshots) [
      | none ↦ (err not_found, s)
      | some n ↦
          if not (n.content_hash == source.content_hash)
          then (err not_found, s)
          else insert_publication now id key_hash request_hash actor n s
    ]

unfoldable pub replay_publication :
    ℕ → (source_id id key_hash request_hash actor : String) → Store → Queued
replay_publication now source_id id key_hash request_hash actor s =
    elim (find_key key_hash s.tables.publications) [
      | some p ↦ repeated request_hash p s
      | none ↦ elim (find_operation source_id s.tables.publications) [
        | none ↦ (err not_found, s)
        | some source ↦ elim (latest s.tables.publications) [
          | none ↦ (err not_found, s)
          | some newest ↦ replay_latest now id key_hash request_hash actor source newest s
        ]
      ]
    ]
