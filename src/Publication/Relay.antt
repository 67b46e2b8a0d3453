-- ===== src/Publication/Relay.antt =====
-- publicationrelay/worker.go: `stepRoutes`, one cycle of the worker that takes publications to the
-- cluster. `project` stands for `Projector.Project`, whose calls go to the cluster; `Backoff` and its
-- operations stand for the rate limiter of client-go.
use agent_enterprise_protoco.Common.{
  ℕ, String, Bool, true, false, not, ◌||◌, Option, none, some, if◌then◌else◌, ◌==◌, nat_eq,
  string_eq,
}
use agent_enterprise_protoco.Common.Results.{Result, ok, err}
use agent_enterprise_protoco.Publication.Tables.{Publication}
use agent_enterprise_protoco.Publication.Delivery.{
  DeliveryError, claim_lost, Inputs, PublicationDelivery, claim_publication, finish_publication,
}
use agent_enterprise_protoco.Publication.Queue.{Store, QueueError}
use agent_enterprise_protoco.Publication.Invalidation.{References, queue_reference_invalidations}

-- How `Project` ends: without an error, with one of the errors that are told apart, or with another.
pub data Projection : Type 0 where
  applied newer_exists unrepresentable foreign_owner transient : Projection

pub data RelayError : Type 0 where
  queue_failed : QueueError → RelayError
  delivery_failed : DeliveryError → RelayError

abbrev pub phase_of : Projection → String
phase_of applied = "projected"
phase_of newer_exists = "superseded"
phase_of unrepresentable = "failed"
phase_of foreign_owner = "failed"
phase_of transient = ""

abbrev pub code_of : Projection → String
code_of unrepresentable = "INVALID_OPERATOR_SNAPSHOT"
code_of foreign_owner = "CR_OWNERSHIP_CONFLICT"
code_of _ = ""

pub record Limiter (Backoff : Type 0) : Type 0 where
  pub when : Backoff → String → ℕ × Backoff
  pub forget : Backoff → String → Backoff

-- What a cycle reads: the two instants of its transactions, what the locks say, fresh identifiers,
-- the snapshots, and the cluster.
pub record Cycle : Type 0 where
  pub now : ℕ
  pub later : ℕ
  pub invalidations_locked : Bool
  pub claim_locked : Bool
  pub id : String
  pub nonce : String
  pub token : String
  pub references : References
  pub inputs : Publication → Option Inputs
  pub project : PublicationDelivery → Projection

module _ {Backoff : Type 0} (limiter : Limiter Backoff) (c : Cycle) where
  abbrev pub Relayed : Type 0
  Relayed = Result RelayError (Unit {0}) × Store × Backoff

  -- `Backoff.When` where the delivery is to be tried again.
  unfoldable pub retry_after : Projection → String → Backoff → ℕ × Backoff
  retry_after transient id b = limiter.when b id
  retry_after _ id b = (0, b)

  unfoldable pub is_lost_claim : Result DeliveryError (Unit {0}) → Bool
  is_lost_claim (err claim_lost) = true
  is_lost_claim _ = false

  unfoldable pub relayed : Result DeliveryError (Unit {0}) → Result RelayError (Unit {0})
  relayed (err e) = err (delivery_failed e)
  relayed (ok _) = ok tt

  unfoldable pub acknowledge_delivery : PublicationDelivery → Projection → Store → Backoff → Relayed
  acknowledge_delivery d outcome s b =
      let id = d.publication.operation_id in
      let (delay, waiting) = retry_after outcome id b in
      let (result, t) =
        finish_publication c.later id d.claim_token (phase_of outcome) (code_of outcome) delay
          s.tables in
      (
        relayed result,
        record s { tables = t },
        if not (phase_of outcome == "") || is_lost_claim result
            then limiter.forget waiting id
            else waiting,
      )

  unfoldable pub deliver_claimed :
      Result DeliveryError (Option PublicationDelivery) → Store → Backoff → Relayed
  deliver_claimed (err e) s b = (err (delivery_failed e), s, b)
  deliver_claimed (ok none) s b = (ok tt, s, b)
  deliver_claimed (ok (some d)) s b = acknowledge_delivery d (c.project d) s b

  unfoldable pub claim_and_deliver : Result QueueError (Unit {0}) → Store → Backoff → Relayed
  claim_and_deliver (err e) s b = (err (queue_failed e), s, b)
  claim_and_deliver (ok _) s b =
      let (claimed, t) = claim_publication c.inputs c.now c.token c.claim_locked s.tables in
      deliver_claimed claimed (record s { tables = t }) b

  unfoldable pub step_routes : Store → Backoff → Relayed
  step_routes s b =
      let (result, t) =
        queue_reference_invalidations c.now c.invalidations_locked c.id c.nonce c.references s in
      claim_and_deliver result t b
