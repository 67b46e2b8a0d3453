-- ===== src/Grants/Vouched.antt =====
-- What an acknowledgement by `deliver` of publicationrelay/access_worker.go stands for.
use agent_enterprise_protoco.Common.{
  String, ◌≡◌, refl, ◌⊎◌, inl, inr, Bool, false, some, ◌==◌, nat_eq, string_eq,
}
use agent_enterprise_protoco.Common.Results.{Result-cases, ok}
use agent_enterprise_protoco.Publication.Relay.{
  Projection, applied, newer_exists, unrepresentable, foreign_owner, transient, Limiter,
}
use agent_enterprise_protoco.Grants.Tables.{AccessTables}
use agent_enterprise_protoco.Grants.Delivery.{
  ModelAccessDelivery, claim_access, check_delivery, finish_access,
}
use agent_enterprise_protoco.Grants.Relay.{
  Run, Attempt, lost, ended, access_phase, access_code, confirm_access, project_checked,
  project_intent, access_retry, finish_attempt, deliver_access, after_claim, deliver_next,
}
use agent_enterprise_protoco.Grants.Holder.{IsHolder, finish_access-IsHolder}

module _ (is_uuid : String → Bool) (before : String → String → Bool) (deployment_id : String)
    (r : Run) where
  -- A projection that counts as done was checked, and checked again when it is applied.
  pub record IsVouched (d : ModelAccessDelivery) (t : AccessTables) : Type 0 where
    pub first_check : check_delivery is_uuid r.checked_at deployment_id d (r.between_1 t) ≡ ok tt
    pub second_check :
        ((access_phase (r.project d) == "projected") ≡ false)
        ⊎ (check_delivery is_uuid r.confirmed_at deployment_id d (r.between_2 (r.between_1 t))
            ≡ ok tt)
    pub holder :
        IsHolder r.finished_at d.publication.operation_id d.claim_token
          (r.between_3 (r.between_2 (r.between_1 t)))

  module _ (d : ModelAccessDelivery) (first second : AccessTables) where
    -- Whether the tables vouch for what the projection returned.
    abbrev IsConfirmed : Projection → Type 0
    IsConfirmed outcome =
        ((access_phase outcome == "projected") ≡ false)
        ⊎ (check_delivery is_uuid r.confirmed_at deployment_id d second ≡ ok tt)

    project_checked-IsConfirmed :
        (found outcome : Projection)
        → project_checked is_uuid before deployment_id r d second found ≡ ended outcome
        → (found ≡ outcome) × IsConfirmed found
    unfolding project_checked confirm_access
    project_checked-IsConfirmed applied outcome h =
        elim (Result-cases (check_delivery is_uuid r.confirmed_at deployment_id d second)) [
          | inl (e, bad) ↦
              let h' : Path Attempt lost (ended outcome) = rw (project_checked, bad) at h in cc
          | inr (_, good) ↦
              let h' : Path Attempt (ended applied) (ended outcome) =
                rw (project_checked, good) at h in
              (cc, inr good)
        ]
    project_checked-IsConfirmed newer_exists outcome h = (cc, inl refl)
    project_checked-IsConfirmed unrepresentable outcome h = (cc, inl refl)
    project_checked-IsConfirmed foreign_owner outcome h = (cc, inl refl)
    project_checked-IsConfirmed transient outcome h = (cc, inl refl)

    project_intent-IsConfirmed :
        (outcome : Projection)
        → project_intent is_uuid before deployment_id r d first second ≡ ended outcome
        → (check_delivery is_uuid r.checked_at deployment_id d first ≡ ok tt)
          × ((r.project d ≡ outcome) × IsConfirmed (r.project d))
    unfolding project_intent
    project_intent-IsConfirmed outcome h =
        elim (Result-cases (check_delivery is_uuid r.checked_at deployment_id d first)) [
          | inl (e, bad) ↦
              let h' : Path Attempt lost (ended outcome) = rw (project_intent, bad) at h in cc
          | inr (_, good) ↦ (
            good,
            project_checked-IsConfirmed (r.project d) outcome (rw (project_intent, good) at h),
          )
        ]

  module _ {Backoff : Type 0} (limiter : Limiter Backoff) (d : ModelAccessDelivery) where
    finish_attempt-IsHolder :
        (t t' : AccessTables) (b b' : Backoff) (a : Attempt)
        → finish_attempt is_uuid before deployment_id r limiter d t b a ≡ (ok tt, (t', b'))
        → ((outcome : Projection) × (a ≡ ended outcome))
          × IsHolder r.finished_at d.publication.operation_id d.claim_token (r.between_3 t)
    unfolding finish_attempt
    finish_attempt-IsHolder t t' b b' lost h = cc
    finish_attempt-IsHolder t t' b b' (ended outcome) h =
        let id = d.publication.operation_id in
        let delay = (access_retry is_uuid before deployment_id r limiter outcome id b).0 in
        let f =
          finish_access is_uuid r.finished_at id d.claim_token (access_phase outcome)
            (access_code outcome) delay (r.between_3 t) in
        let good : f.0 ≡ ok tt = λ i. (h i).0 in
        let whole : f ≡ (ok tt, f.1) = λ i. (good i, f.1) in
        (
          (outcome, refl),
          finish_access-IsHolder is_uuid r.finished_at id d.claim_token (access_phase outcome)
              (access_code outcome) delay (r.between_3 t) f.1 whole,
        )

    deliver_access-IsVouched :
        (t t' : AccessTables) (b b' : Backoff)
        → deliver_access is_uuid before deployment_id r limiter d t b ≡ (ok tt, (t', b'))
        → IsVouched d t
    unfolding deliver_access
    deliver_access-IsVouched t t' b b' h =
        let first = r.between_1 t in
        let second = r.between_2 first in
        let ((outcome, e), held) =
          finish_attempt-IsHolder second t' b b'
            (project_intent is_uuid before deployment_id r d first second) h in
        let (good, (same, confirmed)) = project_intent-IsConfirmed d first second outcome e in
        record { first_check = good; second_check = confirmed; holder = held }

  -- What a run that succeeds stands for: when the worker claims a delivery and the run returns
  -- without an error, whatever others do to the tables between its calls, the delivery passed its
  -- check before the projection, it passed the second check if the projection was applied, and it
  -- was acknowledged by the holder of its lease on the last intent of a stream.
  pub deliver_next-IsVouched :
      {Backoff : Type 0} (limiter : Limiter Backoff) (t s t' : AccessTables) (b b' : Backoff)
      (d : ModelAccessDelivery)
      → claim_access r.claimed_at r.token before r.locked t ≡ (ok (some d), s)
      → deliver_next is_uuid before deployment_id r limiter t b ≡ (ok tt, (t', b'))
      → IsVouched d s
  unfolding deliver_next after_claim
  deliver_next-IsVouched limiter t s t' b b' d claimed h =
      deliver_access-IsVouched limiter d s t' b b' (rw (deliver_next, claimed) at h)
