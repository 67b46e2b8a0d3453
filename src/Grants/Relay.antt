-- ===== src/Grants/Relay.antt =====
-- publicationrelay/access_worker.go: `NewAccessRelay`'s guard, `capture`, `project` and `deliver`.
-- Other workers may change the tables between the calls of the store: `between_1`, `between_2` and
-- `between_3` are what they do while one delivery runs. `project` stands for `ProjectAccess`, `Limiter`
-- and `WorkQueue` for the rate limiter and the queue of client-go, `discovery` and `store_capture` for
-- `PendingModelAccessSubjects` and `CaptureModelAccessBindings`.
use agent_enterprise_protoco.Common.{
  ℕ, ◌*◌, ◌%◌, String, Bool, true, false, not, ◌||◌, Option, none, some, List, [], ◌∷◌, ◌++◌, ltb,
  if◌then◌else◌, length, ◌==◌, nat_eq, string_eq,
}
use agent_enterprise_protoco.Common.Results.{Result, ok, err}
use agent_enterprise_protoco.Publication.Relay.{
  Projection, applied, newer_exists, unrepresentable, foreign_owner, transient, Limiter,
}
use agent_enterprise_protoco.Grants.Tables.{AccessTables}
use agent_enterprise_protoco.Grants.Delivery.{
  AccessError, claim_lost, ModelAccessDelivery, claim_access, check_delivery, finish_access,
}

abbrev pub one_second : ℕ
one_second = 1000000000

-- The freshness that `NewAccessRelay` accepts, in nanoseconds.
unfoldable pub is_bad_freshness : ℕ → Bool
is_bad_freshness freshness =
    ltb freshness (2 * one_second)
    || ltb (3600 * one_second) freshness
    || not (freshness % one_second == 0)

pub record WorkQueue (Q : Type 0) : Type 0 where
  pub num_requeues : Q → String → ℕ
  pub add : Q → String → Q
  pub get : Q → Option (String × Q)
  pub add_rate_limited : Q → String → Q
  pub forget : Q → String → Q
  pub done : Q → String → Q

unfoldable pub last_id : String → List String → String
last_id found [] = found
last_id found (id ∷ ids) = last_id id ids

unfoldable pub next_cursor : List String → String
next_cursor ids = if length ids == 32 then last_id "" ids else ""

module _ {Q : Type 0} (queue : WorkQueue Q) where
  -- A subject that waits after a failure is not added before its time.
  unfoldable pub add_pending : List String → Q → Q
  add_pending [] q = q
  add_pending (id ∷ ids) q =
      add_pending ids (if queue.num_requeues q id == 0 then queue.add q id else q)

  unfoldable pub after_capture : {E : Type 0} → Option E → String → Q → List E × Q
  after_capture none id q = ([], queue.done (queue.forget q id) id)
  after_capture (some e) id q = (e ∷ [], queue.done (queue.add_rate_limited q id) id)

  -- One subject of the queue; `get` is none when the queue is empty or shut down.
  unfoldable pub capture_one :
      {E : Type 0} (store_capture : String → Option E)
      → List E
      → (cursor : String) → Q
      → List E × (String × Q)
  capture_one store_capture errors cursor q = elim (queue.get q) [
    | none ↦ (errors, (cursor, q))
    | some (id, rest) ↦
        let (more, q') = after_capture (store_capture id) id rest in (errors ++ more, (cursor, q'))
  ]

  unfoldable pub capture :
      {E : Type 0} (discovery : String → Result E (List String)) (store_capture : String → Option E)
      (cursor : String)
      → Q
      → List E × (String × Q)
  capture discovery store_capture cursor q = elim (discovery cursor) [
    | err e ↦ capture_one store_capture (e ∷ []) cursor q
    | ok ids ↦ capture_one store_capture [] (next_cursor ids) (add_pending ids q)
  ]

-- What one delivery reads: the instants of its transactions, what others do in between, and the
-- cluster.
pub record Run : Type 0 where
  pub claimed_at : ℕ
  pub checked_at : ℕ
  pub confirmed_at : ℕ
  pub finished_at : ℕ
  pub between_1 : AccessTables → AccessTables
  pub between_2 : AccessTables → AccessTables
  pub between_3 : AccessTables → AccessTables
  pub token : String
  pub locked : String → Bool
  pub project : ModelAccessDelivery → Projection

-- How a projection between its two checks ends.
pub data Attempt : Type 0 where
  lost : Attempt
  ended : Projection → Attempt

abbrev pub access_phase : Projection → String
access_phase applied = "projected"
access_phase transient = ""
access_phase newer_exists = "failed"
access_phase unrepresentable = "failed"
access_phase foreign_owner = "failed"

abbrev pub access_code : Projection → String
access_code applied = ""
access_code transient = ""
access_code unrepresentable = "INVALID_ACCESS_SNAPSHOT"
access_code newer_exists = "ACCESS_CR_OWNERSHIP_CONFLICT"
access_code foreign_owner = "ACCESS_CR_OWNERSHIP_CONFLICT"

module _ (is_uuid : String → Bool) (before : String → String → Bool) (deployment_id : String)
    (r : Run) where
  unfoldable pub confirm_access : Result AccessError (Unit {0}) → Projection → Attempt
  confirm_access (err _) outcome = lost
  confirm_access (ok _) outcome = ended outcome

  -- Only a projection that succeeded is checked again.
  unfoldable pub project_checked : ModelAccessDelivery → AccessTables → Projection → Attempt
  project_checked d t applied =
      confirm_access (check_delivery is_uuid r.confirmed_at deployment_id d t) applied
  project_checked d t outcome = ended outcome

  unfoldable pub project_intent : ModelAccessDelivery → AccessTables → AccessTables → Attempt
  project_intent d first second = elim (check_delivery is_uuid r.checked_at deployment_id d first) [
    | err _ ↦ lost
    | ok _ ↦ project_checked d second (r.project d)
  ]

  module _ {Backoff : Type 0} (limiter : Limiter Backoff) where
    abbrev pub Delivered : Type 0
    Delivered = Result AccessError (Unit {0}) × (AccessTables × Backoff)

    unfoldable pub access_retry : Projection → String → Backoff → ℕ × Backoff
    access_retry transient id b = limiter.when b id
    access_retry _ id b = (0, b)

    unfoldable pub is_lost_access : Result AccessError (Unit {0}) → Bool
    is_lost_access (err claim_lost) = true
    is_lost_access _ = false

    unfoldable pub finish_attempt :
        ModelAccessDelivery → AccessTables → Backoff → Attempt → Delivered
    finish_attempt d t b lost = (err claim_lost, (t, limiter.forget b d.publication.operation_id))
    finish_attempt d t b (ended outcome) =
        let id = d.publication.operation_id in
        let (delay, waiting) = access_retry outcome id b in
        let (result, t') =
          finish_access is_uuid r.finished_at id d.claim_token (access_phase outcome)
            (access_code outcome) delay (r.between_3 t) in
        (
          result,
          (
            t',
            if not (access_phase outcome == "") || is_lost_access result
                then limiter.forget waiting id
                else waiting,
          ),
        )

    unfoldable pub deliver_access : ModelAccessDelivery → AccessTables → Backoff → Delivered
    deliver_access d t b =
        let first = r.between_1 t in
        let second = r.between_2 first in finish_attempt d second b (project_intent d first second)

    unfoldable pub after_claim :
        Result AccessError (Option ModelAccessDelivery) → AccessTables → Backoff → Delivered
    after_claim (err e) t b = (err e, (t, b))
    after_claim (ok none) t b = (ok tt, (t, b))
    after_claim (ok (some d)) t b = deliver_access d t b

    unfoldable pub deliver_next : AccessTables → Backoff → Delivered
    deliver_next t b =
        let (claimed, t') = claim_access r.claimed_at r.token before r.locked t in
        after_claim claimed t' b
