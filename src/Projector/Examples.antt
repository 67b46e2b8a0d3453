-- ===== src/Projector/Examples.antt =====
-- A publication projected to an empty namespace and over an older one, evaluated: tests and instances
-- of the properties of the projector.
use agent_enterprise_protoco.Common.{
  String, ◌≡◌, refl, Bool, true, false, none, some, [], ◌∷◌, map, nat_eq, string_eq, insert_by,
  sort_by,
}
use agent_enterprise_protoco.Common.Results.{ok, err}
use agent_enterprise_protoco.Common.{sort_by, insert_by}
use agent_enterprise_protoco.Common.Maps.{lookup, insert}
use agent_enterprise_protoco.Publication.Selection.{Route, InvalidationSnapshot}
use agent_enterprise_protoco.Publication.Delivery.{PublicationDelivery}
use agent_enterprise_protoco.Publication.Relay.{newer_exists, foreign_owner}
use agent_enterprise_protoco.Common.Decimal.{
  format_digits, format_int, parse_digits, parse_nat, in_range, as_int, parse_int,
}
use agent_enterprise_protoco.Projector.Markers.{check_marker, compare_marker, mark, same_meta}
use agent_enterprise_protoco.Projector.Routes.{
  Codecs, RouteSpec, is_bad_url, protocol_of, credential_of, provider_of, with_protocol, route_spec,
  add_history, add_current, read_snapshot, read_history, desired_routes,
}
use agent_enterprise_protoco.Projector.Policies.{policies_of, desired_policies}
use agent_enterprise_protoco.Projector.Cluster.{
  Object, Environment, Session, Outcome, and_then, call, find_object, create, replace,
  update_object, is_stale, same_credential, same_text, same_route, same_policy, new_meta,
}
use agent_enterprise_protoco.Projector.Project.{
  sort_names, apply_write, needs_write, may_write, verify_object, verify_routes, stored,
  write_route, write_routes, project_policies, check_deployment, apply_deployment, stamp_deployment,
  is_confirmed, stamp, passed, project_desired, project_publication,
}

run : Unit {0}
unfolding format_digits format_int parse_digits parse_nat in_range as_int parse_int check_marker
    compare_marker mark same_meta is_bad_url protocol_of credential_of provider_of with_protocol
    route_spec add_history add_current read_snapshot read_history desired_routes policies_of
    desired_policies and_then call find_object create replace update_object is_stale same_credential
    same_text same_route same_policy sort_names sort_by insert_by apply_write needs_write may_write
    verify_object verify_routes stored write_route write_routes project_policies check_deployment
    apply_deployment stamp_deployment is_confirmed stamp passed project_desired project_publication
    lookup insert
run = tt

abbrev route : String → Bool → Route
route id enabled = record {
  model_id = id;
  enabled = enabled;
  endpoint = "https://models.example";
  upstream_model = "large";
  protocol = "openai-compatible";
  provider_type = "";
  credential_ref = none;
}

abbrev selection : InvalidationSnapshot
selection = record { revision = "r7"; routes = route "b" true ∷ []; gateway_limits = none }

abbrev codecs : Codecs
codecs = record {
  decode = λ text. some selection;
  decode_history = λ text. some (route "b" true ∷ route "a" true ∷ []);
  encode = λ state. "{}";
  digest = λ text. "h7";
  short_digest = λ text. text;
  parse_url = λ text. some (record {
    scheme = "https";
    host = "models.example";
    has_user = false;
    raw_query = "";
    fragment = "";
  });
}

abbrev delivery : PublicationDelivery
delivery = record {
  publication = record {
    operation_id = "op7";
    sequence = 7;
    idempotency_key_hash = "k";
    request_hash = "q";
    revision = "r7";
    content_hash = "h7";
    phase = "projecting";
    error_code = none;
  };
  claim_token = "t";
  inputs = record { payload = "{}"; historical_routes = "[]" };
}

-- Nobody else writes, and no call fails.
abbrev alone : Environment
alone = record { turn = λ n c. ok c; fresh_version = λ c. 9 }

abbrev start : Session
start = record {
  cluster = record {
    deployment = some (record { meta = new_meta "deployment"; spec = "dep" });
    routes = [];
    policies = [];
    grants = [];
  };
  calls = 0;
}

abbrev projected : Outcome
projected = project_publication codecs "dep" alone delivery start

-- The older route stays as a disabled tombstone, and there are eight calls.
projected_test :
    (projected.0 ≡ ok tt)
    × (map (λ o. o.meta.name) projected.1.cluster.routes ≡ "model-b" ∷ "model-a" ∷ [])
    × (map (λ o. o.spec.enabled) projected.1.cluster.routes ≡ true ∷ false ∷ [])
    × (map (λ o. o.meta.sequence) projected.1.cluster.routes ≡ "7" ∷ "7" ∷ [])
    × (projected.1.calls ≡ 8)
unfolding run
projected_test = (refl, refl, refl, refl, refl)

abbrev live : String → Object RouteSpec
live sequence = record {
  meta = record {
    name = "model-b";
    owner_label = "dep";
    sequence = sequence;
    operation_id = "op";
    content_hash = "h";
    revision = "r";
    audit_resource = "op";
    access_binding = "";
    uid = 1;
    deleting = false;
    resource_version = 4;
  };
  spec = record {
    deployment_ref = "deployment";
    model_id = "b";
    protocol = "openai";
    provider_type = "openai";
    enabled = true;
    endpoint = "https://models.example";
    model = "small";
    credential_ref = none;
    tenant_scope = none;
  };
}

abbrev namespace : String → Session
namespace sequence = record {
  cluster = record start.cluster { routes = live sequence ∷ [] };
  calls = 0;
}

-- An older route is replaced, a newer one is left alone, and one without a sequence is another's.
taken_over_test :
    ((project_publication codecs "dep" alone delivery (namespace "6")).0 ≡ ok tt)
    × ((project_publication codecs "dep" alone delivery (namespace "8")).0 ≡ err newer_exists)
    × ((project_publication codecs "dep" alone delivery (namespace "")).0 ≡ err foreign_owner)
unfolding run
taken_over_test = (refl, refl, refl)
