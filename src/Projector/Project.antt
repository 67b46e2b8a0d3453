-- ===== src/Projector/Project.antt =====
-- projector.go: `writeRoute` and `Project`; policies.go: `projectPolicies` and `verifyPolicies`.
use agent_enterprise_protoco.Common.{
  ℕ, String, Bool, true, false, not, ◌&&◌, ◌||◌, Option, none, some, List, [], ◌∷◌, if◌then◌else◌,
  length, ◌==◌, nat_eq, string_eq, sort_by,
}
use agent_enterprise_protoco.Common.Results.{Result, ok, err, refuse_if, ◌>>◌}
use agent_enterprise_protoco.Common.{sort_by}
use agent_enterprise_protoco.Common.Maps.{lookup}
use agent_enterprise_protoco.Common.Text.{append, str_lt}
use agent_enterprise_protoco.Publication.Tables.{Publication}
use agent_enterprise_protoco.Publication.Delivery.{PublicationDelivery}
use agent_enterprise_protoco.Publication.Relay.{Projection, transient, foreign_owner}
use agent_enterprise_protoco.Common.Decimal.{format_int}
use agent_enterprise_protoco.Projector.Markers.{Meta, check_marker, mark, same_meta}
use agent_enterprise_protoco.Projector.Routes.{Codecs, RouteSpec, Desired, desired_routes}
use agent_enterprise_protoco.Projector.Policies.{PolicySpec, Policies, desired_policies}
use agent_enterprise_protoco.Projector.Cluster.{
  Object, Cluster, Environment, Session, Outcome, and_then, call, find_object, create,
  update_object, is_stale, same_route, same_policy, new_meta,
}

-- `sort.Strings` on the names of a map, each with its entry.
abbrev pub name_lt : {A : Type 0} → String × A → String × A → Bool
name_lt (j, _) (k, _) = str_lt j k

unfoldable pub sort_names : {A : Type 0} → List (String × A) → List (String × A)
sort_names m = sort_by name_lt m

module _ (codecs : Codecs) (deployment_id : String) (item : Publication) where
  abbrev pub checked : Meta → Bool → Result Projection (Unit {0})
  checked m required = check_marker codecs.short_digest deployment_id m item required

  abbrev pub marked : Meta → Meta
  marked = mark codecs.short_digest deployment_id item

  module _ {Spec : Type 0} where
    -- What the server does with a write of an object that the projector has read, or found missing.
    unfoldable pub apply_write :
        ℕ → String → Spec → Option (Object Spec) → List (Object Spec) → Option (List (Object Spec))
    apply_write version name spec none os =
        create
          (record {
            meta = record (marked (new_meta name)) { resource_version = version; uid = version };
            spec = spec;
          })
          os
    apply_write version name spec (some live) os =
        update_object live.meta.resource_version
          (record { meta = record (marked live.meta) { resource_version = version }; spec = spec })
          os

    unfoldable pub may_write : Option (Object Spec) → Result Projection (Unit {0})
    may_write none = ok tt
    may_write (some live) = checked live.meta true

  module _ {Spec : Type 0} (same : Spec → Spec → Bool) where
    -- Whether a live object has to be written.
    unfoldable pub needs_write : Spec → Option (Object Spec) → Bool
    needs_write spec none = true
    needs_write spec (some live) =
        not (same live.spec spec && same_meta live.meta (marked live.meta))

    -- A live object that has the publication's marker, its sequence and the desired content.
    unfoldable pub verify_object : Spec → Object Spec → Result Projection (Unit {0})
    verify_object spec o =
        checked o.meta true
        >> refuse_if (not (o.meta.sequence == format_int item.sequence) || not (same o.spec spec))
            foreign_owner

  unfoldable pub verify_routes : Desired → List (Object RouteSpec) → Result Projection (Unit {0})
  verify_routes [] live = ok tt
  verify_routes ((id, spec) ∷ desired) live = elim (find_object (append "model-" id) live) [
    | none ↦ err transient
    | some o ↦ verify_object same_route spec o >> verify_routes desired live
  ]

  unfoldable pub verify_each : Policies → List (Object PolicySpec) → Result Projection (Unit {0})
  verify_each desired [] = ok tt
  verify_each desired (o ∷ os) = elim (lookup o.meta.name desired) [
    | none ↦ err foreign_owner
    | some spec ↦ verify_object same_policy spec o >> verify_each desired os
  ]

  unfoldable pub verify_policies :
      Policies → List (Object PolicySpec) → Result Projection (Unit {0})
  verify_policies desired os =
      refuse_if (not (length os == length desired)) foreign_owner >> verify_each desired os

  -- A policy of the namespace that the publication does not name is another's.
  unfoldable pub only_desired : Policies → List (Object PolicySpec) → Result Projection (Unit {0})
  only_desired desired [] = ok tt
  only_desired desired (o ∷ os) = elim (lookup o.meta.name desired) [
    | none ↦ err foreign_owner
    | some _ ↦ only_desired desired os
  ]

  module _ (env : Environment) where
    -- A write with its call; a refused write is tried again in a later cycle.
    unfoldable pub stored : {A : Type 0} → Option A → (A → Cluster) → Session → Outcome
    stored none set k = (err transient, k)
    stored (some os) set k = (ok tt, record k { cluster = set os })

    unfoldable pub write_route : String → RouteSpec → Option (Object RouteSpec) → Session → Outcome
    write_route name spec live k =
        and_then (may_write live, k)
          (λ k.
            if not (needs_write same_route spec live)
            then (ok tt, k)
            else call env k (λ c k.
              stored (apply_write (env.fresh_version c) name spec live c.routes)
                (λ os. record c { routes = os }) k))

    unfoldable pub write_policy :
        String → PolicySpec → Option (Object PolicySpec) → Session → Outcome
    write_policy name spec live k =
        and_then (may_write live, k)
          (λ k.
            if not (needs_write same_policy spec live)
            then (ok tt, k)
            else call env k (λ c k.
              stored (apply_write (env.fresh_version c) name spec live c.policies)
                (λ os. record c { policies = os }) k))

    unfoldable pub write_routes : Desired → List (Object RouteSpec) → Session → Outcome
    write_routes [] live k = (ok tt, k)
    write_routes ((id, spec) ∷ desired) live k =
        let name = append "model-" id in
        and_then (write_route name spec (find_object name live) k) (write_routes desired live)

    unfoldable pub write_policies : Policies → List (Object PolicySpec) → Session → Outcome
    write_policies [] live k = (ok tt, k)
    write_policies ((name, spec) ∷ desired) live k =
        and_then (write_policy name spec (find_object name live) k) (write_policies desired live)

    unfoldable pub project_policies : Option Policies → Session → Outcome
    project_policies none k = (ok tt, k)
    project_policies (some desired) k = call env k (λ c k.
        and_then (only_desired desired c.policies, k)
          (λ k.
            and_then (write_policies desired c.policies k)
              (λ k. call env k (λ c k. (verify_policies desired c.policies, k)))))

    -- The aggregate of the deployment, read and checked.
    unfoldable pub check_deployment :
        Bool → Bool → Option (Object String) → Result Projection (Object String)
    check_deployment refuse_deleting required none = err transient
    check_deployment refuse_deleting required (some o) =
        refuse_if (not (o.spec == deployment_id) || refuse_deleting && o.meta.deleting)
          foreign_owner
        >> checked o.meta required
        >> ok o

    unfoldable pub apply_deployment : ℕ → Object String → Cluster → Option Cluster
    apply_deployment version o c =
        if is_stale o.meta.resource_version c.deployment
        then none
        else some (record c {
          deployment =
              some (record o { meta = record (marked o.meta) { resource_version = version } });
        })

    unfoldable pub stamp_deployment : Object String → Session → Outcome
    stamp_deployment o k =
        if same_meta o.meta (marked o.meta)
        then (ok tt, k)
        else call env k (λ c k. stored (apply_deployment (env.fresh_version c) o c) (λ c. c) k)

    unfoldable pub is_confirmed : Option (Object String) → Result Projection (Unit {0})
    is_confirmed none = err transient
    is_confirmed (some o) =
        checked o.meta true
        >> refuse_if (not (o.meta.sequence == format_int item.sequence)) foreign_owner

    unfoldable pub stamp : Result Projection (Object String) → Session → Outcome
    stamp (err e) k = (err e, k)
    stamp (ok o) k =
        and_then (stamp_deployment o k) (λ k. call env k (λ c k. (is_confirmed c.deployment, k)))

    unfoldable pub passed : {A : Type 0} → Result Projection A → Result Projection (Unit {0})
    passed (err e) = err e
    passed (ok _) = ok tt

    -- `Project` once its inputs have been read.
    unfoldable pub project_desired : Desired → Option Policies → Session → Outcome
    project_desired desired policies k = call env k (λ c k.
        and_then (passed (check_deployment true false c.deployment), k)
          (λ k. call env k (λ c k. and_then (write_routes desired c.routes k) (λ k.
            call env k (λ c k.
              and_then (verify_routes desired c.routes, k)
                (λ k. and_then (project_policies policies k) (λ k.
                  call env k (λ c k. stamp (check_deployment false false c.deployment) k))))))))

unfoldable pub project_publication :
    Codecs → (deployment_id : String) → Environment → PublicationDelivery → Session → Outcome
project_publication codecs deployment_id env d k = elim (desired_routes codecs d) [
  | err e ↦ (err e, k)
  | ok desired ↦ elim (desired_policies codecs d) [
    | err e ↦ (err e, k)
    | ok policies ↦
        project_desired codecs deployment_id d.publication env (sort_names desired) policies k
  ]
]
