-- ===== src/Projector/Granted.antt =====
-- What it takes for `ProjectAccess` to report success.
use agent_enterprise_protoco.Common.{
  ℕ, ◌+◌, ◌-◌, ◌≤◌, ◌<◌, ◌≡◌, sym, ap, ◌∙◌, inl, inr, Bool, true, false, not, ◌||◌, Option, none,
  some, arith, eq_iff, Option-cases, ◌==◌, nat_eq, string_eq,
}
use agent_enterprise_protoco.Common.Results.{
  Result, ok, err, ◌>>◌, refuse_if, Result-cases, >>-eq-ok, refuse_if-passed,
}
use mathlib.Core.Path.{subst}
use agent_enterprise_protoco.Access.Snapshot.{Binding, Snapshot, decode}
use agent_enterprise_protoco.Access.Canonical.{IsGrant, decode-IsGrant}
use agent_enterprise_protoco.Publication.Relay.{
  Projection, transient, foreign_owner, unrepresentable,
}
use agent_enterprise_protoco.Projector.Markers.{check_marker}
use agent_enterprise_protoco.Projector.Grant.{
  ModelAccessDelivery, GrantSpec, AccessCodecs, has_bad_times, has_bad_names, is_other_policy,
  grant_of, desired_access, access_markers, hour,
}
use agent_enterprise_protoco.Projector.Cluster.{
  Object, Cluster, Environment, Session, Outcome, find_object,
}
use agent_enterprise_protoco.Projector.Access.{
  is_other_binding, check_access, grant_name, check_aggregate, is_confirmed_grant, confirm,
  stored_grants, create_grant, update_grant, write_grant, project_grant, project_access,
}
use agent_enterprise_protoco.Projector.Evidence.{Done, and_then-ok, call-ok, checked-ok}
use agent_enterprise_protoco.Projector.Fenced.{IsOurs, check_marker-IsOurs}

-- A publication that may be projected: its policy is a well-formed grant of its own deployment,
-- subject and binding, and it is valid for at most an hour.
pub record IsProjectable (codecs : AccessCodecs) (item : ModelAccessDelivery) (policy : Snapshot)
    : Type 0 where
  pub decoded :
      decode codecs.marshal codecs.unmarshal codecs.hex_sha256 item.payload item.content_hash
      ≡ ok policy
  pub own_deployment : item.deployment_id ≡ policy.deployment_id
  pub own_subject : item.subject_id ≡ policy.subject.id
  pub own_binding : item.binding_key ≡ codecs.binding_key policy
  pub sequence_positive : 1 ≤ item.sequence
  pub validity : (item.issued_at < item.valid_until) × (item.valid_until ≤ item.issued_at + hour)

projectable :
    (codecs : AccessCodecs) (item : ModelAccessDelivery) (policy : Snapshot)
    → decode codecs.marshal codecs.unmarshal codecs.hex_sha256 item.payload item.content_hash
      ≡ ok policy
    → has_bad_names codecs item ≡ false
    → is_other_policy codecs item policy ≡ false
    → has_bad_times item ≡ false
    → IsProjectable codecs item policy
unfolding has_bad_names is_other_policy has_bad_times
projectable codecs item policy decoded names own times = record {
  decoded = decoded;
  own_deployment = (eq_iff item.deployment_id policy.deployment_id).0 (ground (arith, own));
  own_subject = (eq_iff item.subject_id policy.subject.id).0 (ground (arith, own));
  own_binding = (eq_iff item.binding_key (codecs.binding_key policy)).0 (ground (arith, own));
  sequence_positive = ground (arith, names);
  validity =
      let after : item.issued_at < item.valid_until = ground (arith, times) in
      let within : item.valid_until - item.issued_at ≤ hour = ground (arith, times) in
      (after, omega (arith, after, within));
}

desired-IsProjectable :
    (codecs : AccessCodecs) (item : ModelAccessDelivery) (spec : GrantSpec)
    → desired_access codecs item ≡ ok spec
    → (policy : Snapshot) × (spec ≡ grant_of item policy) × IsProjectable codecs item policy
unfolding desired_access
desired-IsProjectable codecs item spec h =
    elim (Result-cases
      (decode codecs.marshal codecs.unmarshal codecs.hex_sha256 item.payload item.content_hash)) [
        | inl (e, failed) ↦
            let h' : Path (Result Projection GrantSpec) (err unrepresentable) (ok spec) =
              rw (desired_access, failed) at h in
            cc
        | inr (policy, decoded) ↦
            let h' : (refuse_if (has_bad_names codecs item) unrepresentable
                  >> refuse_if (is_other_policy codecs item policy) unrepresentable
                  >> refuse_if (has_bad_times item) unrepresentable
                  >> ok (grant_of item policy))
                ≡ ok spec =
              rw (desired_access, decoded) at h in
            let (r3, made) =
              >>-eq-ok
                (refuse_if (has_bad_names codecs item) unrepresentable
                  >> refuse_if (is_other_policy codecs item policy) unrepresentable
                  >> refuse_if (has_bad_times item) unrepresentable)
                _ h' in
            let (r2, times) =
              >>-eq-ok
                (refuse_if (has_bad_names codecs item) unrepresentable
                  >> refuse_if (is_other_policy codecs item policy) unrepresentable)
                _ r3 in
            let (names, own) =
              >>-eq-ok (refuse_if (has_bad_names codecs item) unrepresentable) _ r2 in
            let good_names = refuse_if-passed (has_bad_names codecs item) unrepresentable names in
            let its_own =
              refuse_if-passed (is_other_policy codecs item policy) unrepresentable own in
            let good_times = refuse_if-passed (has_bad_times item) unrepresentable times in
            let made' : Path (Result Projection GrantSpec) (ok (grant_of item policy)) (ok spec) =
              made in
            let spec_is : grant_of item policy ≡ spec = cc in
            (
              policy,
              sym spec_is,
              projectable codecs item policy decoded good_names its_own good_times,
            )
      ]

module _ (codecs : AccessCodecs) (same : GrantSpec → GrantSpec → Bool)
    (same_binding : Binding → Binding → Bool) (item : ModelAccessDelivery) where
  -- The grant's object in a cluster, with the desired content and the publication's marker or, as the
  -- server may have normalised it, an equal content's.
  abbrev pub IsGrantedIn : GrantSpec → Cluster → Type 0
  IsGrantedIn spec c =
      (o : Object GrantSpec) × (find_object (grant_name codecs same same_binding item) c.grants
        ≡ some o)
      × (same o.spec spec ≡ true)
      × (o.meta.access_binding ≡ item.binding_key)
      × IsOurs codecs.short_digest item.deployment_id (access_markers item) o.meta

  confirmed-IsOurs :
      (uid : ℕ) (spec : GrantSpec) (o : Object GrantSpec)
      → is_confirmed_grant codecs same same_binding item uid spec (some o) ≡ ok tt
      → (same o.spec spec ≡ true)
        × (o.meta.access_binding ≡ item.binding_key)
        × IsOurs codecs.short_digest item.deployment_id (access_markers item) o.meta
  unfolding is_confirmed_grant check_access is_other_binding
  confirmed-IsOurs uid spec o h =
      let (checked, equal) = >>-eq-ok (check_access codecs same same_binding item o spec) _ h in
      let kept =
        refuse_if-passed (not (same o.spec spec) || not (o.meta.uid == uid)) foreign_owner equal in
      let (r2, _) =
        >>-eq-ok
          (check_marker codecs.short_digest item.deployment_id o.meta (access_markers item) true
            >> refuse_if (is_other_binding codecs same same_binding item o spec) foreign_owner)
          _ checked in
      let (valid, binding) =
        >>-eq-ok
          (check_marker codecs.short_digest item.deployment_id o.meta (access_markers item) true) _
          r2 in
      let own =
        refuse_if-passed (is_other_binding codecs same same_binding item o spec) foreign_owner
          binding in
      (
        ground (arith, kept),
        (eq_iff o.meta.access_binding item.binding_key).0 (ground (arith, own)),
        check_marker-IsOurs codecs.short_digest item.deployment_id (access_markers item) o.meta
            valid,
      )

  missing_refused :
      (uid : ℕ) (spec : GrantSpec)
      → is_confirmed_grant codecs same same_binding item uid spec none ≡ ok tt
      → ⊥
  unfolding is_confirmed_grant
  missing_refused uid spec q =
      let q' : Path (Result Projection (Unit {0})) (err transient) (ok tt) = q in cc

  module _ (env : Environment) where
    confirm-IsGrantedIn :
        (uid : ℕ) (spec : GrantSpec) (k end : Session)
        → confirm codecs same same_binding item env uid spec k ≡ Done end
        → IsGrantedIn spec end.cluster
    unfolding confirm
    confirm-IsGrantedIn uid spec k end h =
        let (c, k', seen, last) = call-ok env k _ end h in
        let name = grant_name codecs same same_binding item in
        let last' : Path Outcome
            (
              is_confirmed_grant codecs same same_binding item uid spec (find_object name c.grants),
              k',
            )
            (Done end) =
          last in
        let confirmed : is_confirmed_grant codecs same same_binding item uid spec
              (find_object name c.grants)
            ≡ ok tt =
          ap (λ (x : Outcome). x.0) last' in
        let at_end : k' ≡ end = ap (λ (x : Outcome). x.1) last' in
        let there : c ≡ end.cluster = sym seen ∙ ap (λ (x : Session). x.cluster) at_end in
        elim (Option-cases (find_object name c.grants)) [
          | inl e ↦ absurd (
              missing_refused uid spec (
                sym (ap (is_confirmed_grant codecs same same_binding item uid spec) e) ∙ confirmed))
          | inr (o, e) ↦
              let (equal, binding, ours) = confirmed-IsOurs uid spec o (
                sym (ap (is_confirmed_grant codecs same same_binding item uid spec) e)
                ∙ confirmed) in
              (
                o,
                ap (λ (x : Cluster). find_object name x.grants) (sym there) ∙ e,
                equal,
                binding,
                ours,
              )
        ]

    written-IsGrantedIn :
        (spec : GrantSpec) (found : Option (Object GrantSpec)) (k end : Session)
        → write_grant codecs same same_binding item env spec found k ≡ Done end
        → IsGrantedIn spec end.cluster
    unfolding write_grant create_grant
    written-IsGrantedIn spec none k end h =
        let (c, k1, _, h1) = call-ok env k _ end h in
        let (k2, _, h2) =
          and_then-ok (stored_grants codecs same same_binding item env _ c k1) _ end h1 in
        confirm-IsGrantedIn _ spec k2 end h2
    written-IsGrantedIn spec (some live) k end h =
        let (_, h1) = checked-ok (check_access codecs same same_binding item live spec) k _ end h in
        let (k2, _, h2) =
          and_then-ok (update_grant codecs same same_binding item env spec live k) _ end h1 in
        confirm-IsGrantedIn live.meta.uid spec k2 end h2

    projected-IsGrantedIn :
        (spec : GrantSpec) (k end : Session)
        → project_grant codecs same same_binding item env spec k ≡ Done end
        → IsGrantedIn spec end.cluster
    unfolding project_grant
    projected-IsGrantedIn spec k end h =
        let (c1, k1, _, h1) = call-ok env k _ end h in
        let (_, h2) =
          checked-ok (check_aggregate codecs same same_binding item c1.deployment) k1 _ end h1 in
        let (c2, k2, _, h3) = call-ok env k1 _ end h2 in
        written-IsGrantedIn spec (find_object (grant_name codecs same same_binding item) c2.grants)
          k2 end h3

    -- A projected grant is what was published. Whatever others write to the namespace between the
    -- calls, when `ProjectAccess` succeeds then the payload decodes, with its hash, to a well-formed
    -- grant of the publication's own deployment, subject and binding; the publication is valid for at
    -- most an hour; and the last read of the cluster shows the grant's object, of the same binding and
    -- deployment and not newer, with the content that the publication asks for.
    pub project_access-IsGranted :
        (k end : Session)
        → project_access codecs same same_binding item env k ≡ (ok tt, end)
        → (policy : Snapshot) × IsGrant policy
          × IsProjectable codecs item policy
          × IsGrantedIn (grant_of item policy) end.cluster
    unfolding project_access
    project_access-IsGranted k end h = elim (Result-cases (desired_access codecs item)) [
      | inl (e, failed) ↦
          let h' : Path Outcome (err e, k) (Done end) = rw (project_access, failed) at h in cc
      | inr (spec, made) ↦
          let h' : project_grant codecs same same_binding item env spec k ≡ Done end =
            rw (project_access, made) at h in
          let (policy, spec_is, ours) = desired-IsProjectable codecs item spec made in
          let (_, _, valid) =
            decode-IsGrant codecs.marshal codecs.unmarshal codecs.hex_sha256 item.payload
              item.content_hash policy ours.decoded in
          (
            policy,
            valid,
            ours,
            subst (λ (x : GrantSpec). IsGrantedIn x end.cluster) spec_is
                (projected-IsGrantedIn spec k end h'),
          )
    ]
