-- ===== src/License/Examples.antt =====
-- A licence verified, evaluated: tests and instances of the properties of the verification.
use agent_enterprise_protoco.Common.{
  ℕ, String, ◌≡◌, refl, Option, none, some, [], ◌∷◌, arith, if◌then◌else◌, ◌==◌, nat_eq, string_eq,
  sort_by,
}
use agent_enterprise_protoco.Common.Results.{err}
use agent_enterprise_protoco.Common.Maps.{lookup, insert}
use agent_enterprise_protoco.Common.Int.{pos}
use agent_enterprise_protoco.License.Claims.{
  Claims, timestamp_pattern, valid_timestamp, instant, has_names, has_optional_times,
  has_valid_expiry, valid_claims,
}
use agent_enterprise_protoco.License.Json.{
  Json, null, text, number, array, object, no_items, item, no_members, member, join,
  canonicalize_value,
}
use agent_enterprise_protoco.License.Verifier.{
  Envelope, Verified, Codecs, LicenseVerifier, canonicalize_json, decode_signature, is_signed,
  envelope_digest, add_days, not_before, grace_days, grace_ends, status_for, status_at,
  read_envelope, read_claims, find_key, find_digest, verify_license, not_yet_valid,
}
use agent_enterprise_protoco.License.Validity.{status_at-cases}
use agent_enterprise_protoco.Common.Text.{append}

abbrev envelope : Envelope
envelope = record {
  format = "zhiyuan-license-v1";
  key_id = "k";
  payload = "payload";
  signature = "sig";
}

abbrev claims_for : ℕ → Claims
claims_for days = record {
  license_id = "l";
  customer_id = "c";
  deployment_id = "d";
  edition = "enterprise";
  issued_at = "2026-01-01T00:00:00.000Z";
  not_before = "";
  expires_at = some "2026-02-01T00:00:00.000Z";
  maintenance_until = "";
  grace_days = pos days;
  features = "models" ∷ [];
}

abbrev parse_time : String → Option ℕ
parse_time s =
    if s == "2026-01-01T00:00:00.000Z"
    then some 1000
    else if s == "2026-02-01T00:00:00.000Z"
    then some 2000
    else none

abbrev document : Json
document =
    object (
      member "b" (number "1")
        (member "a" (array (item (text "x") (item null no_items))) no_members))

abbrev quoted : String → String
quoted s = append "'" (append s "'")

abbrev codecs : Codecs
codecs = record {
  decode_envelope = λ raw. if raw == "raw" then some envelope else none;
  decode_claims = λ payload. some (claims_for 1);
  decode_json = λ raw. some document;
  marshal_text = quoted;
  marshal_claims = λ c. c.license_id;
  decode_base64 = λ s. some (1 ∷ []);
  verify_signature = λ key payload signature. payload == "{'a':['x',null],'b':1}";
  hex_sha256 = λ s. "0";
  parse_time = parse_time;
}

abbrev verifier : LicenseVerifier
verifier = record { trusted_keys = ("k", 7 ∷ []) ∷ []; expected_deployment = "d" }

run : Unit {0}
unfolding lookup insert timestamp_pattern valid_timestamp instant has_names has_optional_times
    has_valid_expiry valid_claims join canonicalize_value sort_by canonicalize_json decode_signature
    is_signed envelope_digest add_days not_before grace_days grace_ends status_for status_at
    read_envelope read_claims find_key find_digest verify_license
run = tt

-- Members are sorted by their keys.
canonical : canonicalize_value quoted document ≡ some "{'a':['x',null],'b':1}"
unfolding run
canonical = refl

too_early : verify_license codecs verifier 999 "raw" ≡ err not_yet_valid
unfolding run
too_early = refl

abbrev accepted : Verified
accepted = record {
  envelope = envelope;
  claims = claims_for 1;
  digest = "sha256:0";
  status = "enterprise-active";
  grace_ends_at = some 86400000002000;
}

status_at-cases_test : status_at codecs 2001 (claims_for 106751) ≡ "enterprise-grace"
unfolding run
status_at-cases_test =
    status_at-cases codecs 2001 (claims_for 106751) "2026-02-01T00:00:00.000Z" refl (omega arith)

-- One day of grace more does not fit a duration: the licence is expired at once.
overflow : status_at codecs 2001 (claims_for 106752) ≡ "enterprise-expired"
unfolding run
overflow = refl
