-- ===== src/Projector/Cluster.antt =====
-- The namespace of the cluster that the projector of publicationrelay/projector.go writes, with the
-- calls of its client. Before each call other writers may have changed the cluster, and the call may
-- fail: `Environment` says so for each call by its number. Of what Kubernetes promises there is that
-- a list or a get shows the objects at one instant, that a creation refuses a name that is in use,
-- and that an update refuses an object whose resource version is not the one that was read.
use agent_enterprise_protoco.Common.{
  ℕ, ◌+◌, String, Bool, true, false, not, ◌&&◌, Option, none, some, List, [], ◌∷◌, if◌then◌else◌,
  ◌==◌, nat_eq, string_eq,
}
use agent_enterprise_protoco.Common.Results.{Result, ok, err}
use agent_enterprise_protoco.Common.Int.{ℤ, pos, negsuc}
use agent_enterprise_protoco.Publication.Relay.{Projection}
use agent_enterprise_protoco.Projector.Grant.{GrantSpec}
use agent_enterprise_protoco.Projector.Markers.{Meta}
use agent_enterprise_protoco.Projector.Routes.{RouteSpec}
use agent_enterprise_protoco.Projector.Policies.{PolicySpec}

pub record Object (Spec : Type 0) : Type 0 where
  pub meta : Meta
  pub spec : Spec

pub record Cluster : Type 0 where
  -- The aggregate named "deployment", with the identifier of its deployment.
  pub deployment : Option (Object String)
  pub routes : List (Object RouteSpec)
  pub policies : List (Object PolicySpec)
  pub grants : List (Object GrantSpec)

pub record Environment : Type 0 where
  pub turn : ℕ → Cluster → Result Projection Cluster
  -- A resource version that the namespace has not had.
  pub fresh_version : Cluster → ℕ

-- The cluster, and the number of calls so far.
pub record Session : Type 0 where
  pub cluster : Cluster
  pub calls : ℕ

abbrev pub Outcome : Type 0
Outcome = Result Projection (Unit {0}) × Session

unfoldable pub and_then : Outcome → (Session → Outcome) → Outcome
and_then (err e, k) next = (err e, k)
and_then (ok _, k) next = next k

-- One call of the client, with what follows on its answer.
unfoldable pub call : Environment → Session → (Cluster → Session → Outcome) → Outcome
call env k next = elim (env.turn k.calls k.cluster) [
  | err e ↦ (err e, record k { calls = k.calls + 1 })
  | ok c ↦ next c (record { cluster = c; calls = k.calls + 1 })
]

module _ {Spec : Type 0} where
  unfoldable pub find_object : String → List (Object Spec) → Option (Object Spec)
  find_object name [] = none
  find_object name (o ∷ os) =
      let rest = find_object name os in if o.meta.name == name then some o else rest

  -- The creation and the update of an object, where they are not refused.
  unfoldable pub create : Object Spec → List (Object Spec) → Option (List (Object Spec))
  create o os = elim (find_object o.meta.name os) [ none ↦ some (o ∷ os) | some _ ↦ none ]

  unfoldable pub replace : Object Spec → List (Object Spec) → List (Object Spec)
  replace o [] = []
  replace o (p ∷ ps) = (if p.meta.name == o.meta.name then o else p) ∷ replace o ps

  -- Whether the object that is there is not of the version that was read.
  unfoldable pub is_stale : ℕ → Option (Object Spec) → Bool
  is_stale version none = true
  is_stale version (some live) = not (live.meta.resource_version == version)

  unfoldable pub update_object : ℕ → Object Spec → List (Object Spec) → Option (List (Object Spec))
  update_object version o os =
      if is_stale version (find_object o.meta.name os) then none else some (replace o os)

unfoldable pub same_credential : Option (String × String) → Option (String × String) → Bool
same_credential none none = true
same_credential (some (name, key)) (some (name', key')) = name == name' && key == key'
same_credential _ _ = false

unfoldable pub same_text : Option String → Option String → Bool
same_text none none = true
same_text (some s) (some t) = s == t
same_text _ _ = false

abbrev same_bool : Bool → Bool → Bool
same_bool true b = b
same_bool false b = not b

-- `reflect.DeepEqual`.
unfoldable pub same_route : RouteSpec → RouteSpec → Bool
same_route r s =
    r.deployment_ref == s.deployment_ref
    && r.model_id == s.model_id
    && r.protocol == s.protocol
    && r.provider_type == s.provider_type
    && same_bool r.enabled s.enabled
    && r.endpoint == s.endpoint
    && r.model == s.model
    && same_credential r.credential_ref s.credential_ref
    && same_text r.tenant_scope s.tenant_scope

abbrev same_int : ℤ → ℤ → Bool
same_int (pos i) (pos j) = i == j
same_int (negsuc i) (negsuc j) = i == j
same_int _ _ = false

unfoldable pub same_policy : PolicySpec → PolicySpec → Bool
same_policy p q =
    p.target_kind == q.target_kind
    && p.target_name == q.target_name
    && same_bool p.disabled q.disabled
    && p.rule_id == q.rule_id
    && p.rule_version == q.rule_version
    && p.subject_type == q.subject_type
    && p.subject_id == q.subject_id
    && p.unit == q.unit
    && same_int p.maximum q.maximum
    && p.interval_seconds == q.interval_seconds
    && same_bool p.has_more q.has_more

abbrev pub new_meta : String → Meta
new_meta name = record {
  name = name;
  owner_label = "";
  sequence = "";
  operation_id = "";
  content_hash = "";
  revision = "";
  audit_resource = "";
  access_binding = "";
  uid = 0;
  deleting = false;
  resource_version = 0;
}
