-- ===== src/Projector/AccessExamples.antt =====
-- A grant projected to the namespace, evaluated: tests and an instance of the property of
-- `ProjectAccess`.
use agent_enterprise_protoco.Common.{
  ℕ, ◌+◌, ◌*◌, ◌≡◌, refl, Bool, true, false, ◌&&◌, none, some, [], ◌∷◌, map, ◌==◌, nat_eq,
  string_eq,
}
use agent_enterprise_protoco.Common.Results.{ok, err}
use agent_enterprise_protoco.Common.Decimal.{
  format_digits, format_int, parse_digits, parse_nat, in_range, as_int, parse_int,
}
use agent_enterprise_protoco.Access.Snapshot.{
  Binding, Snapshot, bounded, is_sorted, are_distinct, canonical_ids, is_model_character,
  all_model_characters, is_model_id, valid_licenses, select_license, selected_workload_license,
  is_valid_workload, is_valid_binding, has_valid_header, has_valid_sets, is_valid_with,
  is_valid_snapshot, canonical, compare_with, decode,
}
use agent_enterprise_protoco.Access.Canonical.{IsGrant}
use agent_enterprise_protoco.Publication.Relay.{unrepresentable, newer_exists}
use agent_enterprise_protoco.Projector.Markers.{check_marker, compare_marker, mark, same_meta}
use agent_enterprise_protoco.Projector.Grant.{
  ModelAccessDelivery, GrantSpec, AccessCodecs, has_bad_times, has_bad_names, is_other_policy,
  grant_of, desired_access, access_markers,
}
use agent_enterprise_protoco.Projector.Cluster.{
  Environment, Session, Outcome, and_then, call, find_object, create, replace, update_object,
  is_stale, new_meta,
}
use agent_enterprise_protoco.Projector.Access.{
  is_other_binding, is_corrupt, check_access, grant_name, check_aggregate, is_confirmed_grant,
  confirm, stored_grants, new_grant, create_grant, update_grant, write_grant, project_grant,
  project_access,
}
use agent_enterprise_protoco.Projector.Granted.{
  IsProjectable, IsGrantedIn, project_access-IsGranted,
}

run : Unit {0}
unfolding format_digits format_int parse_digits parse_nat in_range as_int parse_int bounded
    is_sorted are_distinct canonical_ids is_model_character all_model_characters is_model_id
    valid_licenses select_license selected_workload_license is_valid_workload is_valid_binding
    has_valid_header has_valid_sets is_valid_with is_valid_snapshot canonical compare_with decode
    check_marker compare_marker mark same_meta has_bad_times has_bad_names is_other_policy grant_of
    desired_access access_markers and_then call find_object create replace update_object is_stale
    is_other_binding is_corrupt check_access grant_name check_aggregate is_confirmed_grant confirm
    stored_grants new_grant create_grant update_grant write_grant project_grant project_access
run = tt

abbrev policy : Snapshot
policy = record {
  schema = "aep-model-access/v1";
  deployment_id = "dep";
  subject = record { kind = "human"; id = "ann" };
  binding = record { kind = "session"; session_id = "s1"; workload = none };
  disabled = false;
  retired = false;
  models = some ("opus" ∷ []);
  role_ids = [];
  team_ids = [];
  licenses = [];
  workload_entitlement = none;
}

abbrev codecs : AccessCodecs
codecs = record {
  marshal = λ s. "{}";
  unmarshal = λ text. some policy;
  hex_sha256 = λ text. "h";
  is_uuid = λ text. true;
  binding_key = λ s. "b";
  short_digest = λ text. text;
}

abbrev item : ℕ → ModelAccessDelivery
item minutes = record {
  deployment_id = "dep";
  subject_id = "ann";
  binding_key = "b";
  sequence = 3;
  operation_id = "op";
  revision = "r";
  content_hash = "h";
  payload = "{}";
  issued_at = 60000000000;
  valid_until = 60000000000 + minutes * 60000000000;
}

abbrev same : GrantSpec → GrantSpec → Bool
same a b = a.operation_id == b.operation_id && a.content_hash == b.content_hash

abbrev same_binding : Binding → Binding → Bool
same_binding a b = a.kind == b.kind && a.session_id == b.session_id

abbrev alone : Environment
alone = record { turn = λ n c. ok c; fresh_version = λ c. 9 }

abbrev start : Session
start = record {
  cluster = record {
    deployment = some (record { meta = new_meta "deployment"; spec = "dep" });
    routes = [];
    policies = [];
    grants = [];
  };
  calls = 0;
}

abbrev granted : Outcome
granted = project_access codecs same same_binding (item 60) alone start

-- A grant for an hour is written; one for longer is refused, and so is an older one after it.
granted_test :
    (granted.0 ≡ ok tt)
    × (map (λ o. o.meta.name) granted.1.cluster.grants ≡ "access-b" ∷ [])
    × (granted.1.calls ≡ 4)
    × ((project_access codecs same same_binding (item 61) alone start).0 ≡ err unrepresentable)
    × ((project_access codecs same same_binding
          (record (item 60) { sequence = 2 })
          alone
          granted.1).0
        ≡ err newer_exists)
unfolding run
granted_test = (refl, refl, refl, refl, refl)

project_access-IsGranted_example :
    (p : Snapshot) × IsGrant p
    × IsProjectable codecs (item 60) p
    × IsGrantedIn codecs same same_binding (item 60) (grant_of (item 60) p) granted.1.cluster
unfolding run
project_access-IsGranted_example =
    project_access-IsGranted codecs same same_binding (item 60) alone start granted.1 refl
