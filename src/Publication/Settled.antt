-- ===== src/Publication/Settled.antt =====
-- What a cycle of publicationrelay/worker.go leaves of the publication that it has delivered.
use agent_enterprise_protoco.Common.{
  String, ◌≡◌, ◌⊎◌, false, Option, none, some, if◌then◌else◌, All, ◌==◌, nat_eq, string_eq,
}
use agent_enterprise_protoco.Common.Results.{Result, ok, err}
use agent_enterprise_protoco.Publication.Tables.{Publication, Tables}
use agent_enterprise_protoco.Publication.Agreement.{next_phase}
use agent_enterprise_protoco.Publication.Delivery.{
  DeliveryError, PublicationDelivery, error_code, claim_publication,
}
use agent_enterprise_protoco.Publication.Queue.{Store, QueueError}
use agent_enterprise_protoco.Publication.Invalidation.{queue_reference_invalidations}
use agent_enterprise_protoco.Publication.Steps.{claims, finishes, invalidates, Steps, ◌then◌, done}
use agent_enterprise_protoco.Publication.Relay.{
  Projection, phase_of, code_of, Limiter, Cycle, RelayError, retry_after, acknowledge_delivery,
  deliver_claimed, claim_and_deliver, step_routes,
}

-- The publications of an operation are in a phase, with the error code that goes with it.
abbrev pub IsIn : (operation_id phase : String) → Option String → Publication → Type 0
IsIn k phase code p = ((p.operation_id == k) ≡ false) ⊎ ((p.phase ≡ phase) × (p.error_code ≡ code))

module _ {Backoff : Type 0} (limiter : Limiter Backoff) (c : Cycle) (d : PublicationDelivery)
    (b : Backoff) where
  -- What a cycle that settles its delivery ends with.
  abbrev pub Settles : Projection → Result RelayError (Unit {0}) × Store × Backoff → Type 0
  Settles o (result, after, b') =
      (result ≡ ok tt)
      × All
          (IsIn d.publication.operation_id (next_phase (phase_of o))
            (error_code (phase_of o) (code_of o)))
          after.tables.publications
      × (b' ≡ (
          if phase_of o == ""
          then (limiter.when b d.publication.operation_id).1
          else limiter.forget b d.publication.operation_id))

-- A cycle is made of the transactions that `Step` lists, so that what holds of all stores that they
-- reach holds after any number of cycles.
module _ {Backoff : Type 0} (limiter : Limiter Backoff) (c : Cycle) where
  deliver_claimed-Steps :
      (claimed : Result DeliveryError (Option PublicationDelivery)) (s : Store) (b : Backoff)
      → Steps s (deliver_claimed limiter c claimed s b).1
  unfolding deliver_claimed acknowledge_delivery
  deliver_claimed-Steps (err e) s b = done
  deliver_claimed-Steps (ok none) s b = done
  deliver_claimed-Steps (ok (some d)) s b =
      let o = c.project d in
      let k = d.publication.operation_id in
      finishes c.later k d.claim_token (phase_of o) (code_of o) (retry_after limiter c o k b).0 s
      then done

  claim_and_deliver-Steps :
      (result : Result QueueError (Unit {0})) (s : Store) (b : Backoff)
      → Steps s (claim_and_deliver limiter c result s b).1
  unfolding claim_and_deliver
  claim_and_deliver-Steps (err e) s b = done
  claim_and_deliver-Steps (ok _) s b =
      claims c.inputs c.now c.token c.claim_locked s
      then deliver_claimed-Steps _
          (record s {
            tables = (claim_publication c.inputs c.now c.token c.claim_locked s.tables).1;
          })
          b

  pub step_routes-Steps : (s : Store) (b : Backoff) → Steps s (step_routes limiter c s b).1
  unfolding step_routes
  step_routes-Steps s b =
      invalidates c.now c.invalidations_locked c.id c.nonce c.references s
      then claim_and_deliver-Steps _
          (queue_reference_invalidations c.now c.invalidations_locked c.id c.nonce c.references s).1
          b
