-- ===== src/Projector/Evidence.antt =====
-- What it takes for the projector to report success, and which objects its writes cannot reach.
use agent_enterprise_protoco.Common.{
  ◌+◌, String, ◌≡◌, refl, inl, inr, true, some, List, All, nat_eq, string_eq,
}
use agent_enterprise_protoco.Common.Results.{Result, ok, err, Result-cases}
use agent_enterprise_protoco.Common.Text.{append}
use agent_enterprise_protoco.Publication.Tables.{Publication}
use agent_enterprise_protoco.Publication.Delivery.{PublicationDelivery}
use agent_enterprise_protoco.Publication.Relay.{Projection}
use agent_enterprise_protoco.Common.Decimal.{format_int}
use agent_enterprise_protoco.Projector.Markers.{Meta, check_marker}
use agent_enterprise_protoco.Projector.Routes.{Codecs, RouteSpec, Desired, desired_routes}
use agent_enterprise_protoco.Projector.Policies.{Policies}
use agent_enterprise_protoco.Projector.Cluster.{
  Object, Cluster, Environment, Session, Outcome, and_then, call, find_object, same_route,
}
use agent_enterprise_protoco.Projector.Project.{sort_names}

abbrev pub Done : Session → Outcome
Done k = (ok tt, k)

pub and_then-ok :
    (first : Outcome) (next : Session → Outcome) (end : Session)
    → and_then first next ≡ Done end
    → (k : Session) × (first ≡ Done k) × (next k ≡ Done end)
unfolding and_then
and_then-ok (err e, k) next end h = let h' : Path Outcome (err e, k) (Done end) = h in cc
and_then-ok (ok tt, k) next end h = (k, refl, h)

-- A call that is followed by success was answered, and shows the cluster of that instant.
pub call-ok :
    (env : Environment) (k : Session) (next : Cluster → Session → Outcome) (end : Session)
    → call env k next ≡ Done end
    → (c : Cluster) × (k' : Session) × (k'.cluster ≡ c) × (next c k' ≡ Done end)
unfolding call
call-ok env k next end h = elim (Result-cases (env.turn k.calls k.cluster)) [
  | inl (e, failed) ↦
      let h' : Path Outcome (err e, record k { calls = k.calls + 1 }) (Done end) =
        rw (call, failed) at h in
      cc
  | inr (c, answered) ↦
      (c, record { cluster = c; calls = k.calls + 1 }, refl, rw (call, answered) at h)
]

pub checked-ok :
    (r : Result Projection (Unit {0})) (k : Session) (next : Session → Outcome) (end : Session)
    → and_then (r, k) next ≡ Done end
    → (r ≡ ok tt) × (next k ≡ Done end)
unfolding and_then
checked-ok (err e) k next end h = let h' : Path Outcome (err e, k) (Done end) = h in cc
checked-ok (ok tt) k next end h = (refl, h)

module _ (codecs : Codecs) (deployment_id : String) (item : Publication) where
  -- An object with the publication's sequence that passes the check of its marker.
  abbrev pub IsMarked : Meta → Type 0
  IsMarked m =
      (check_marker codecs.short_digest deployment_id m item true ≡ ok tt)
      × (m.sequence ≡ format_int item.sequence)

  abbrev pub IsLive : List (Object RouteSpec) → String × RouteSpec → Type 0
  IsLive live (id, spec) =
      (o : Object RouteSpec) × (find_object (append "model-" id) live ≡ some o)
      × IsMarked o.meta
      × (same_route o.spec spec ≡ true)

-- What is known once a projection has succeeded.
pub record IsProjected (codecs : Codecs) (deployment_id : String) (d : PublicationDelivery)
    (end : Session) : Type 0 where
  pub desired : Desired
  pub desired_read : desired_routes codecs d ≡ ok desired
  -- The cluster as it was read back after the writes.
  pub read_back : Cluster
  pub routes_live :
      All (IsLive codecs deployment_id d.publication read_back.routes) (sort_names desired)
  pub aggregate : Object String
  pub aggregate_last : end.cluster.deployment ≡ some aggregate
  pub aggregate_marked : IsMarked codecs deployment_id d.publication aggregate.meta

module _ (codecs : Codecs) (deployment_id : String) (item : Publication) (env : Environment) where
  abbrev Stamped : Session → Type 0
  Stamped end =
      (o : Object String) × (end.cluster.deployment ≡ some o)
      × IsMarked codecs deployment_id item o.meta
