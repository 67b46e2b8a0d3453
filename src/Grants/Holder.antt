-- ===== src/Grants/Holder.antt =====
-- Who may acknowledge the delivery of an access publication: `FinishModelAccessPublication` of
-- model_access_delivery.go.
use agent_enterprise_protoco.Common.{ℕ, ◌<◌, String, ◌≡◌, ◌≢◌, Bool, true, ◌&&◌, none, some, arith, eq_iff, nat_beq_iff, any, nat_eq, string_eq, In, any-In}
use agent_enterprise_protoco.Common.Results.{ok}
use agent_enterprise_protoco.Publication.Tables.{OutboxRow, affected}
use agent_enterprise_protoco.Publication.Latest.{affected-In}
use agent_enterprise_protoco.Publication.Completion.{has_token-eq, is_held-eq, is_null-eq}
use agent_enterprise_protoco.Grants.Tables.{
  Stream, ModelAccessPublication, AccessTables, is_last_of, is_last,
}
use agent_enterprise_protoco.Grants.Delivery.{
  is_operation, is_timely, is_acknowledged, finish_row, finish_access,
}

-- The stream of an intent has no later one.
pub record IsNewest (p : ModelAccessPublication) (t : AccessTables) : Type 0 where
  pub stream : Stream
  pub stream_in : In stream t.streams
  pub stream_binding : stream.binding_key ≡ p.binding_key
  pub stream_sequence : stream.last_sequence ≡ p.sequence

pub is_last-IsNewest :
    (p : ModelAccessPublication) (t : AccessTables) → is_last t.streams p ≡ true → IsNewest p t
unfolding is_last is_last_of
is_last-IsNewest p t h =
    let (s, i, e) = any-In (is_last_of p) t.streams (unfold is_last_of in h) in
    record {
      stream = s;
      stream_in = i;
      stream_binding = ground (arith, eq_iff s.binding_key p.binding_key);
      stream_sequence = ground (arith, nat_beq_iff s.last_sequence p.sequence);
    }

-- The worker that leased the operation, within its lease, while the operation is the last intent
-- of a stream and is being projected before it is out of date.
pub record IsHolder (now : ℕ) (operation_id token : String) (t : AccessTables) : Type 0 where
  pub row : OutboxRow
  pub row_in : In row t.outbox
  pub row_operation : row.operation_id ≡ operation_id
  pub row_token : row.claim_token ≡ some token
  pub row_lease : (u : ℕ) × (row.lease_until ≡ some u) × (now < u)
  pub row_pending : row.completed_at ≡ none
  pub intent : ModelAccessPublication
  pub intent_in : In intent t.publications
  pub intent_operation : intent.operation_id ≡ operation_id
  pub intent_projecting : intent.phase ≡ "projecting"
  pub intent_timely : now < intent.valid_until
  pub last : ModelAccessPublication
  pub last_in : In last t.publications
  pub last_operation : last.operation_id ≡ operation_id
  pub last_newest : IsNewest last t

-- Only the holder acknowledges: a delivery of an access publication is finished, for good or to be
-- tried again, only with the token and within the lease of its outbox row, which is not complete,
-- while its publication is being projected, has not expired, and is the last intent of its stream.
pub finish_access-IsHolder :
    (is_uuid : String → Bool) (now : ℕ) (id token phase code : String) (retry_after : ℕ)
    (t t' : AccessTables)
    → finish_access is_uuid now id token phase code retry_after t ≡ (ok tt, t')
    → IsHolder now id token t
unfolding finish_access finish_row is_acknowledged is_timely
finish_access-IsHolder is_uuid now id token phase code retry_after t t' h =
    let acknowledged = is_acknowledged now t.publications id token in
    let some_row : affected acknowledged t.outbox ≢ 0 = λ e. ground (arith, e) in
    let some_last : any (λ p. is_operation id p && is_last t.streams p) t.publications ≡ true =
      ground arith in
    let (row, i, e) = affected-In acknowledged t.outbox some_row in
    let (intent, j, k) = any-In (is_timely now id) t.publications (ground arith) in
    let (newest, l, n) =
      any-In (λ p. is_operation id p && is_last t.streams p) t.publications some_last in
    record {
      row = row;
      row_in = i;
      row_operation = ground (arith, eq_iff row.operation_id id);
      row_token = has_token-eq token row.claim_token (ground arith);
      row_lease = is_held-eq now row.lease_until (ground arith);
      row_pending = is_null-eq row.completed_at (ground arith);
      intent = intent;
      intent_in = j;
      intent_operation = ground (arith, eq_iff intent.operation_id id);
      intent_projecting = ground (arith, eq_iff intent.phase "projecting");
      intent_timely = ground arith;
      last = newest;
      last_in = l;
      last_operation = ground (arith, eq_iff newest.operation_id id);
      last_newest = is_last-IsNewest newest t (ground arith);
    }
