-- ===== src/Projector/Access.antt =====
-- access_projector.go: `checkAccess` and `ProjectAccess`. `same` and `same_binding` stand for
-- apimachinery's semantic equality.
use agent_enterprise_protoco.Common.{
  ℕ, String, Bool, true, not, ◌&&◌, ◌||◌, Option, none, some, List, ltb, if◌then◌else◌, ◌==◌,
  nat_eq, string_eq,
}
use agent_enterprise_protoco.Common.Results.{Result, ok, err, refuse_if, ◌>>◌}
use agent_enterprise_protoco.Common.Text.{append}
use agent_enterprise_protoco.Common.Decimal.{format_int}
use agent_enterprise_protoco.Access.Snapshot.{Binding}
use agent_enterprise_protoco.Publication.Relay.{Projection, transient, foreign_owner}
use agent_enterprise_protoco.Projector.Markers.{Meta, check_marker, mark, same_meta}
use agent_enterprise_protoco.Projector.Grant.{
  ModelAccessDelivery, GrantSpec, AccessCodecs, desired_access, access_markers,
}
use agent_enterprise_protoco.Projector.Cluster.{
  Object, Cluster, Environment, Session, Outcome, and_then, call, find_object, create,
  update_object, new_meta,
}

module _ (codecs : AccessCodecs) (same : GrantSpec → GrantSpec → Bool)
    (same_binding : Binding → Binding → Bool) (item : ModelAccessDelivery) where
  abbrev pub marked_access : Meta → Meta
  marked_access m = mark codecs.short_digest item.deployment_id (access_markers item) m

  unfoldable pub is_other_binding : Object GrantSpec → GrantSpec → Bool
  is_other_binding live spec =
      not (live.meta.access_binding == item.binding_key)
      || not (live.spec.deployment_id == spec.deployment_id)
      || not (live.spec.subject.kind == spec.subject.kind)
      || not (live.spec.subject.id == spec.subject.id)
      || not (same_binding live.spec.binding spec.binding)

  -- Whether metadata and content describe different publications, or the same one differently.
  unfoldable pub is_corrupt : Object GrantSpec → GrantSpec → Bool
  is_corrupt live spec =
      ltb live.spec.sequence 1
      || not (live.meta.sequence == format_int live.spec.sequence)
      || not (live.meta.operation_id == live.spec.operation_id)
      || not (live.meta.content_hash == live.spec.content_hash)
      || not (live.meta.revision == live.spec.revision)
      || not (live.meta.audit_resource == live.spec.operation_id)
      || live.spec.sequence == spec.sequence && not (same live.spec spec)

  unfoldable pub check_access : Object GrantSpec → GrantSpec → Result Projection (Unit {0})
  check_access live spec =
      check_marker codecs.short_digest item.deployment_id live.meta (access_markers item) true
      >> refuse_if (is_other_binding live spec) foreign_owner
      >> refuse_if (is_corrupt live spec) foreign_owner

  unfoldable pub grant_name : String
  grant_name = append "access-" item.binding_key

  unfoldable pub check_aggregate : Option (Object String) → Result Projection (Unit {0})
  check_aggregate none = err transient
  check_aggregate (some o) =
      refuse_if (not (o.spec == item.deployment_id) || o.meta.deleting) foreign_owner

  unfoldable pub is_confirmed_grant :
      (uid : ℕ) → GrantSpec → Option (Object GrantSpec) → Result Projection (Unit {0})
  is_confirmed_grant uid spec none = err transient
  is_confirmed_grant uid spec (some o) =
      check_access o spec
      >> refuse_if (not (same o.spec spec) || not (o.meta.uid == uid)) foreign_owner

  module _ (env : Environment) where
    unfoldable pub confirm : (uid : ℕ) → GrantSpec → Session → Outcome
    confirm uid spec k =
        call env k (λ c k. (is_confirmed_grant uid spec (find_object grant_name c.grants), k))

    unfoldable pub stored_grants : Option (List (Object GrantSpec)) → Cluster → Session → Outcome
    stored_grants none c k = (err transient, k)
    stored_grants (some os) c k = (ok tt, record k { cluster = record c { grants = os } })

    unfoldable pub new_grant : ℕ → GrantSpec → Object GrantSpec
    new_grant version spec = record {
      meta = record (marked_access (new_meta grant_name)) {
        access_binding = item.binding_key;
        resource_version = version;
        uid = version;
      };
      spec = spec;
    }

    unfoldable pub create_grant : GrantSpec → Session → Outcome
    create_grant spec k = call env k (λ c k.
        let o = new_grant (env.fresh_version c) spec in
        and_then (stored_grants (create o c.grants) c k) (confirm o.meta.uid spec))

    unfoldable pub update_grant : GrantSpec → Object GrantSpec → Session → Outcome
    update_grant spec live k =
        if same live.spec spec && same_meta live.meta (marked_access live.meta)
        then (ok tt, k)
        else call env k (λ c k.
          let o : Object GrantSpec = record {
            meta = record (marked_access live.meta) { resource_version = env.fresh_version c };
            spec = spec;
          } in
          stored_grants (update_object live.meta.resource_version o c.grants) c k)

    unfoldable pub write_grant : GrantSpec → Option (Object GrantSpec) → Session → Outcome
    write_grant spec none k = create_grant spec k
    write_grant spec (some live) k =
        and_then (check_access live spec, k)
          (λ k. and_then (update_grant spec live k) (confirm live.meta.uid spec))

    unfoldable pub project_grant : GrantSpec → Session → Outcome
    project_grant spec k = call env k (λ c k.
        and_then (check_aggregate c.deployment, k)
          (λ k. call env k (λ c k. write_grant spec (find_object grant_name c.grants) k)))

    unfoldable pub project_access : Session → Outcome
    project_access k = elim (desired_access codecs item) [
      | err e ↦ (err e, k)
      | ok spec ↦ project_grant spec k
    ]
