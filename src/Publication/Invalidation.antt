-- ===== src/Publication/Invalidation.antt =====
-- publication_invalidation.go: `QueueReferenceInvalidations`, as a step of the store.
use agent_enterprise_protoco.Common.{
  ℕ, String, Bool, not, none, some, List, ◌∷◌, if◌then◌else◌, nat_eq, string_eq,
}
use agent_enterprise_protoco.Common.Text.{append}
use agent_enterprise_protoco.Common.Results.{Result, ok, err}
use agent_enterprise_protoco.Publication.Tables.{Publication, latest}
use agent_enterprise_protoco.Publication.Selection.{
  GatewayLimit, InvalidationSnapshot, invalidate_selected,
}
use agent_enterprise_protoco.Publication.Queue.{
  invalid_selection, is_pending, Queued, Snapshot, Store, latest_payload, QueueError,
  insert_publication,
}

-- What `QueueReferenceInvalidations` reads besides the publications, and the codecs and digests
-- that it uses. `encode` is `json.Marshal`, `digest` the hexadecimal SHA-256.
pub record References : Type 0 where
  pub ids : List String
  pub removed : ℕ → List String
  pub fences : List GatewayLimit
  pub decode : String → Result QueueError InvalidationSnapshot
  pub encode : InvalidationSnapshot → String
  pub digest : String → String

abbrev pub Invalidated : Type 0
Invalidated = Result QueueError (Unit {0}) × Store

unfoldable pub acknowledge_signal : Store → Store
acknowledge_signal s = record s {
  signal = record s.signal { acknowledged_version = s.signal.version };
}

-- The snapshot of a changed selection, named by the digest of its content.
unfoldable pub withdrawal : References → InvalidationSnapshot → Snapshot
withdrawal r state =
    let unnamed = record state { revision = "gateway-reference-" } in
    let named = record state {
      revision = append "gateway-reference-" (r.digest (r.encode unnamed));
    } in
    let payload = r.encode named in
    record { revision = named.revision; content_hash = r.digest payload; payload = payload }

unfoldable pub note_invalidation : Publication → Store → Store
note_invalidation p s = record s {
  audit =
      record {
        actor = "";
        action = "invalidate";
        resource_id = p.operation_id;
        reason = "gateway_reference_removed";
      }
      ∷ s.audit;
}

-- `before` is the store that a failure restores.
unfoldable pub finish_invalidation : Store → Queued → Invalidated
finish_invalidation before (err e, s) = (err e, before)
finish_invalidation before (ok p, s) = (ok tt, acknowledge_signal (note_invalidation p s))

-- `nonce` is a fresh UUID too, whose digest is the key.
unfoldable pub withdraw :
    ℕ → (id nonce : String) → References → InvalidationSnapshot → Store → Invalidated
withdraw now id nonce r state s = finish_invalidation s (
    insert_publication now id (r.digest nonce) (r.digest "reference-removal") ""
      (withdrawal r state) s)

unfoldable pub invalidate_payload :
    ℕ → (id nonce : String) → References → ℕ → String → Store → Invalidated
invalidate_payload now id nonce r sequence payload s = elim (r.decode payload) [
  | err _ ↦ (err invalid_selection, s)
  | ok state ↦
      let (state', changed) = invalidate_selected state r.ids (r.removed sequence) r.fences in
      if changed then withdraw now id nonce r state' s else (ok tt, acknowledge_signal s)
]

unfoldable pub latest_sequence : Store → ℕ
latest_sequence s = elim (latest s.tables.publications) [ none ↦ 0 | some p ↦ p.sequence ]

unfoldable pub queue_reference_invalidations :
    ℕ → (locked : Bool) → (id nonce : String) → References → Store → Invalidated
queue_reference_invalidations now locked id nonce r s =
    if not locked
    then (ok tt, s)
    else if not (is_pending s.signal)
    then (ok tt, s)
    else elim (latest_payload s) [
      | none ↦ (ok tt, acknowledge_signal s)
      | some payload ↦ invalidate_payload now id nonce r (latest_sequence s) payload s
    ]
