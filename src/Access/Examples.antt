-- ===== src/Access/Examples.antt =====
-- A publication of model access, evaluated: tests and instances of its properties.
use agent_enterprise_protoco.Common.{
  ◌≤◌, String, ◌≡◌, refl, true, false, Option, none, some, [], ◌∷◌, arith, if◌then◌else◌, ◌==◌,
  nat_eq, string_eq,
}
use agent_enterprise_protoco.Common.Results.{ok, err}
use Prim.Native.String.{len}
use agent_enterprise_protoco.Access.Snapshot.{
  Snapshot, License, WorkloadEntitlement, bounded, is_sorted, are_distinct, canonical_ids,
  is_model_id, is_digest, is_zero_time, valid_licenses, select_license, selected_workload_license,
  is_valid_workload, is_valid_binding, has_valid_header, has_valid_sets, is_valid_with,
  is_valid_snapshot, invalid_snapshot, max_payload, canonical, compare_with, decode,
}
use agent_enterprise_protoco.Access.Canonical.{
  IsGrant, named, decode-IsGrant, canonical-decode, selected_workload_license_unique,
}

abbrev digest : String
digest = "sha256:0123456789abcdef0123456789abcdef0123456789abcdef0123456789abcdef"

abbrev licence : License
licence = record { id = "l"; digest = digest; valid_until = some 9 }

abbrev entitlement : WorkloadEntitlement
entitlement = record { feature = "enterprise.models"; license_id = "l"; license_digest = digest }

abbrev snapshot : Snapshot
snapshot = record {
  schema = "aep-model-access/v1";
  deployment_id = "d";
  subject = record { kind = "agent"; id = "robot" };
  binding = record {
    kind = "kubernetes";
    session_id = "";
    workload = some (record {
      namespace = "n";
      service_account_name = "a";
      service_account_uid = "u";
      employee_uid = "e";
      audience = "aep";
    });
  };
  disabled = false;
  retired = false;
  models = some ("gpt-5" ∷ "opus" ∷ []);
  role_ids = "lead" ∷ [];
  team_ids = [];
  licenses = licence ∷ [];
  workload_entitlement = some entitlement;
}

-- A codec of one snapshot.
abbrev marshal : Snapshot → String
marshal s = "bytes"

abbrev unmarshal : String → Option Snapshot
unmarshal payload = if payload == "bytes" then some snapshot else none

abbrev hash : String → String
hash payload = payload

run : Unit {0}
unfolding bounded is_sorted are_distinct canonical_ids is_model_id is_digest is_zero_time
    valid_licenses select_license selected_workload_license is_valid_workload is_valid_binding
    has_valid_header has_valid_sets is_valid_with is_valid_snapshot canonical compare_with decode
run = tt

tests :
    (is_valid_snapshot snapshot ≡ true)
    × (is_valid_snapshot (record snapshot { models = some ("opus" ∷ "gpt-5" ∷ []) }) ≡ false)
    × (is_valid_snapshot (record snapshot { disabled = true }) ≡ false)
    × (is_valid_snapshot (record snapshot { licenses = [] }) ≡ false)
    × (decode marshal unmarshal hash "bytes" "other" ≡ err invalid_snapshot)
unfolding run
tests = (refl, refl, refl, refl, refl)

decode-IsGrant_example :
    (len "bytes" ≤ max_payload)
    × (canonical marshal unmarshal hash snapshot ≡ ok ("bytes", "bytes"))
    × IsGrant snapshot
unfolding run
decode-IsGrant_example = decode-IsGrant marshal unmarshal hash "bytes" "bytes" snapshot refl

canonical-decode_example : decode marshal unmarshal hash "bytes" "bytes" ≡ ok snapshot
unfolding run
canonical-decode_example =
    canonical-decode marshal unmarshal hash "bytes" "bytes" snapshot refl refl (omega arith)

selected_workload_license_unique_example :
    (l : License) × (some licence ≡ some l)
    × (snapshot.binding.kind ≡ "kubernetes")
    × (entitlement.feature ≡ "enterprise.models")
    × (named entitlement (licence ∷ []) ≡ l ∷ [])
    × (l.digest ≡ digest)
    × (is_zero_time l.valid_until ≡ false)
unfolding run
selected_workload_license_unique_example =
    selected_workload_license_unique "kubernetes" entitlement (licence ∷ []) (some licence) refl
