-- ===== src/Publication/StoreExamples.antt =====
-- A publication from its request to its delivery, evaluated: tests and instances of the properties
-- of the store.
use agent_enterprise_protoco.Common.{
  ℕ, ◌+◌, String, ◌≡◌, refl, ◌⊎◌, Bool, true, false, Option, none, some, [], ◌∷◌, map,
  if◌then◌else◌, ◌==◌, nat_eq, string_eq,
}
use agent_enterprise_protoco.Common.Results.{Result, ok, err}
use agent_enterprise_protoco.Policy.Limits.{Configuration}
use agent_enterprise_protoco.Common.Int.{pos}
use agent_enterprise_protoco.Common.Maps.{lookup, insert, delete}
use agent_enterprise_protoco.Publication.Tables.{
  Publication, Tables, update, affected, newer, latest,
}
use agent_enterprise_protoco.Publication.Delivery.{
  DeliveryError, Inputs, PublicationDelivery, supersede, retire, is_retired, complete,
  is_superseded, is_unleased, is_claimable, take_lease, set_phase, project, deliver, sweep,
  claim_latest, claim_publication, is_terminal, has_newer, is_current, is_held, has_token, is_owned,
  acknowledge, error_code, finish_publication,
}
use agent_enterprise_protoco.Publication.Selection.{
  Route, GatewayLimit, InvalidationSnapshot, name_models, forget_removed, is_model, is_lost,
  disable_lost, index_fences, fences_off, fence_limit, is_fenced_by, fence_by, is_fenced,
  apply_fence, fence_limits, any_fenced, invalidate_selected,
}
use agent_enterprise_protoco.Publication.Withdrawn.{IsWithdrawn, invalidate_selected-IsWithdrawn}
use agent_enterprise_protoco.Publication.Queue.{
  Store, Snapshot, QueueError, key_conflict, invalid_selection, Queued, find_snapshot,
  save_snapshot, find_key, find_operation, is_duplicate, new_publication, new_row, with_publication,
  is_same_content, insert_publication, repeated, queue_publication, replay_latest,
  replay_publication, is_pending, latest_payload,
}
use agent_enterprise_protoco.Publication.Invalidation.{
  References, acknowledge_signal, withdrawal, note_invalidation, finish_invalidation, withdraw,
  invalidate_payload, latest_sequence, queue_reference_invalidations,
}
use agent_enterprise_protoco.Publication.Lifecycle.{as_queued, view, Turns}
use agent_enterprise_protoco.Publication.Steps.{queues, claims, Steps, done, ◌then◌}
use agent_enterprise_protoco.Publication.Sound.{IsSound}
use agent_enterprise_protoco.Publication.Reachable.{empty_store, Steps-IsSound, step-Turns}
use agent_enterprise_protoco.Publication.Once.{queue_once}
use agent_enterprise_protoco.Publication.Relay.{
  Projection, foreign_owner, RelayError, Limiter, Cycle, retry_after, is_lost_claim, relayed,
  acknowledge_delivery, deliver_claimed, claim_and_deliver, step_routes,
}
use agent_enterprise_protoco.Publication.Settled.{step_routes-Steps}

run : Unit {0}
unfolding update affected newer latest supersede retire is_retired complete is_superseded
    is_unleased is_claimable take_lease set_phase project deliver sweep claim_latest
    claim_publication is_terminal has_newer is_current is_held has_token is_owned acknowledge
    error_code finish_publication name_models forget_removed is_model is_lost disable_lost
    index_fences fences_off fence_limit is_fenced_by fence_by is_fenced apply_fence fence_limits
    any_fenced invalidate_selected find_snapshot save_snapshot find_key find_operation is_duplicate
    new_publication new_row with_publication is_same_content insert_publication repeated
    queue_publication replay_latest replay_publication is_pending acknowledge_signal withdrawal
    note_invalidation finish_invalidation withdraw invalidate_payload latest_sequence latest_payload
    queue_reference_invalidations retry_after is_lost_claim relayed acknowledge_delivery
    deliver_claimed claim_and_deliver step_routes lookup insert delete
run = tt

abbrev catalog : Store → Result QueueError Snapshot
catalog s = ok (record { revision = "r1"; content_hash = "h1"; payload = "{}" })

abbrev requested : Queued
requested = queue_publication 1000 "op1" "k1" "q1" "admin" catalog empty_store

abbrev first : Publication
first = record {
  operation_id = "op1";
  sequence = 1;
  idempotency_key_hash = "k1";
  request_hash = "q1";
  revision = "r1";
  content_hash = "h1";
  phase = "queued";
  error_code = none;
}

requested_test : requested.0 ≡ ok first
unfolding run
requested_test = refl

abbrev inputs : Publication → Option Inputs
inputs p = some (record { payload = "{}"; historical_routes = "[]" })

-- Nothing has been removed.
abbrev quiet : References
quiet = record {
  ids = [];
  removed = λ sequence. [];
  fences = [];
  decode = λ payload. err invalid_selection;
  encode = λ state. "";
  digest = λ text. text;
}

abbrev cycle : (PublicationDelivery → Projection) → Cycle
cycle outcome = record {
  now = 2000;
  later = 3000;
  invalidations_locked = true;
  claim_locked = true;
  id = "op2";
  nonce = "n";
  token = "t";
  references = quiet;
  inputs = inputs;
  project = outcome;
}

-- A limiter that counts.
abbrev counting : Limiter ℕ
counting = record { when = λ b id. (1000, b + 1); forget = λ b id. 0 }

abbrev refused : Result RelayError (Unit {0}) × Store × ℕ
refused = step_routes counting (cycle (λ d. foreign_owner)) requested.1 4

-- The cluster's resources are another's: the publication fails, and its row is complete.
refused_test :
    (map (λ p. p.phase) refused.1.tables.publications ≡ "failed" ∷ [])
    × (map (λ p. p.error_code) refused.1.tables.publications ≡ some "CR_OWNERSHIP_CONFLICT" ∷ [])
    × (map (λ o. o.completed_at) refused.1.tables.outbox ≡ some 3000 ∷ [])
    × (refused.2 ≡ 0)
unfolding run
refused_test = (refl, refl, refl, refl)

requested-Steps : Steps empty_store requested.1
requested-Steps = queues 1000 "op1" "k1" "q1" "admin" catalog empty_store then done

requested-IsSound : IsSound requested.1
requested-IsSound = Steps-IsSound requested.1 requested-Steps

Steps-IsSound_example : IsSound refused.1
Steps-IsSound_example = Steps-IsSound refused.1 (
    queues 1000 "op1" "k1" "q1" "admin" catalog empty_store
    then step_routes-Steps counting (cycle (λ d. foreign_owner)) requested.1 4)

abbrev claimed : Result DeliveryError (Option PublicationDelivery) × Tables
claimed = claim_publication inputs 2000 "t" true requested.1.tables

abbrev after_claim : Store
after_claim = record requested.1 { tables = claimed.1 }

step-Turns_example : Turns (view requested.1.tables) (view after_claim.tables)
step-Turns_example =
    step-Turns requested.1 after_claim requested-IsSound (claims inputs 2000 "t" true requested.1)

-- The same key again, after the publication has failed.
queue_once_example :
    (q : Publication) × (as_queued q ≡ as_queued first)
    × (queue_publication 4000 "op3" "k1" "q1" "other" catalog refused.1 ≡ (ok q, refused.1))
    × (queue_publication 4000 "op3" "k1" "q2" "other" catalog refused.1
        ≡ (if ◌==◌ {A = String} "q2" "q1" then ok q else err key_conflict, refused.1))
unfolding run
queue_once_example =
    queue_once 1000 4000 "op1" "op3" "k1" "q1" "q2" "admin" "other" catalog catalog empty_store
      requested.1 refused.1 first (Steps-IsSound empty_store done) refl
      (step_routes-Steps counting (cycle (λ d. foreign_owner)) requested.1 4)

abbrev delivery : PublicationDelivery
delivery = record {
  publication = record first { phase = "projecting" };
  claim_token = "t";
  inputs = record { payload = "{}"; historical_routes = "[]" };
}

abbrev route : String → Route
route id = record {
  model_id = id;
  enabled = true;
  endpoint = "https://models.example";
  upstream_model = id;
  protocol = "openai-compatible";
  provider_type = "openai";
  credential_ref = none;
}

abbrev quota : Configuration
quota = record {
  kind = "tokens";
  scope_type = "model";
  scope_id = some "old";
  model_id = none;
  maximum = pos 100;
  interval = "hour";
  enabled = true;
  expected_version = pos 0;
}

abbrev selection : InvalidationSnapshot
selection = record {
  revision = "r1";
  routes = route "kept" ∷ route "old" ∷ route "gone" ∷ [];
  gateway_limits =
      some (record { id = "l"; version = 3; configuration = quota; updated_at = 10 } ∷ []);
}

abbrev fence : GatewayLimit
fence = record { id = "l"; version = 4; updated_at = 20 }

abbrev invalidated : InvalidationSnapshot × Bool
invalidated = invalidate_selected selection ("kept" ∷ "old" ∷ []) ("old" ∷ []) (fence ∷ [])

-- Only the route stays whose model is there and has not been removed since.
invalidated_test :
    (map (λ r. r.enabled) invalidated.0.routes ≡ true ∷ false ∷ false ∷ []) × (invalidated.1 ≡ true)
unfolding run
invalidated_test = (refl, refl)

invalidate_selected-IsWithdrawn_example :
    IsWithdrawn ("kept" ∷ "old" ∷ []) ("old" ∷ []) (fence ∷ []) invalidated.0
    × ((invalidated.1 ≡ true) ⊎ (invalidated.0 ≡ selection))
invalidate_selected-IsWithdrawn_example =
    invalidate_selected-IsWithdrawn selection ("kept" ∷ "old" ∷ []) ("old" ∷ []) (fence ∷ [])
