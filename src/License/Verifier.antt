-- ===== src/License/Verifier.antt =====
-- verifier.go of the control service: `Envelope`, `Verified`, `NewVerifier`, `Verify` and
-- `envelopeDigest`. The decoders of JSON, base64, SHA-256 and the test of an Ed25519 signature are
-- parameters. Instants are nanoseconds since Go's zero time.
use agent_enterprise_protoco.Common.{
  ℕ, ◌+◌, ◌-◌, ◌*◌, ◌%◌, ◌^◌, String, Bool, false, not, ◌&&◌, ◌||◌, Option, none, some, List, [],
  ◌∷◌, ltb, if◌then◌else◌, length, ◌==◌, nat_eq, string_eq,
}
use agent_enterprise_protoco.Common.Results.{Result, ok, err, refuse_if, ◌>>=◌, ◌>>◌}
use agent_enterprise_protoco.Common.Maps.{lookup, insert}
use agent_enterprise_protoco.Common.Int.{pos, negsuc}
use agent_enterprise_protoco.Common.Text.{append}
use agent_enterprise_protoco.License.Claims.{Claims, instant, valid_claims}
use agent_enterprise_protoco.License.Json.{
  Json, text, object, no_members, member, canonicalize_value,
}

pub record Envelope : Type 0 where
  pub format : String
  pub key_id : String
  pub payload : String
  pub signature : String

pub record Verified : Type 0 where
  pub envelope : Envelope
  pub claims : Claims
  pub digest : String
  pub status : String
  pub grace_ends_at : Option ℕ

pub data LicenseError : Type 0 where
  invalid_public_key malformed_envelope unknown_signing_key malformed_claims invalid_signature
        deployment_mismatch not_yet_valid no_digest :
      LicenseError

abbrev pub Key : Type 0
Key = List ℕ

-- The functions that the code calls, with `json.Marshal` of a text and of claims.
pub record Codecs : Type 0 where
  pub decode_envelope : String → Option Envelope
  pub decode_claims : String → Option Claims
  pub decode_json : String → Option Json
  pub marshal_text : String → String
  pub marshal_claims : Claims → String
  pub decode_base64 : String → Option (List ℕ)
  pub verify_signature : Key → String → List ℕ → Bool
  pub hex_sha256 : String → String
  pub parse_time : String → Option ℕ

pub record LicenseVerifier : Type 0 where
  pub trusted_keys : List (String × Key)
  pub expected_deployment : String

module _ (codecs : Codecs) where
  unfoldable pub new_verifier_keys :
      List (String × String) → Result LicenseError (List (String × Key))
  new_verifier_keys [] = ok []
  new_verifier_keys ((key_id, value) ∷ encoded) =
      let rest = new_verifier_keys encoded in
      elim (codecs.decode_base64 value) [
        | none ↦ err invalid_public_key
        | some decoded ↦
            if not (length decoded == 32)
            then err invalid_public_key
            else do ok (insert key_id decoded (← rest))
      ]

  unfoldable pub canonicalize_json : String → Option String
  canonicalize_json raw = elim (codecs.decode_json raw) [
    | none ↦ none
    | some value ↦ canonicalize_value codecs.marshal_text value
  ]

  -- A signature of another length is no signature.
  unfoldable pub decode_signature : String → List ℕ
  decode_signature value = elim (codecs.decode_base64 value) [
    | none ↦ []
    | some decoded ↦ if not (length decoded == 64) then [] else decoded
  ]

  unfoldable pub is_signed : Key → Envelope → Bool
  is_signed key envelope = elim (canonicalize_json envelope.payload) [
    | none ↦ false
    | some payload ↦ codecs.verify_signature key payload (decode_signature envelope.signature)
  ]

  unfoldable pub envelope_digest : Envelope → Claims → Option String
  envelope_digest envelope claims = elim (codecs.decode_json (codecs.marshal_claims claims)) [
    | none ↦ none
    | some payload ↦
        elim (canonicalize_value codecs.marshal_text (
          object (
            member "format" (text envelope.format) (
              member "keyId" (text envelope.key_id) (
                member "payload" payload
                  (member "signature" (text envelope.signature) no_members)))))) [
                    | none ↦ none
                    | some canonical ↦ some (append "sha256:" (codecs.hex_sha256 canonical))
                  ]
  ]

  -- 24 hours
  abbrev pub day : ℕ
  day = 86400000000000

  -- `time.Duration(days) * 24 * time.Hour` is a signed number of 64 bits.
  unfoldable pub add_days : ℕ → ℕ → ℕ
  add_days t days =
      let wrapped = days * day % 2 ^ 64 in
      if ltb wrapped (2 ^ 63) then t + wrapped else t - (2 ^ 64 - wrapped)

  unfoldable pub not_before : Claims → ℕ
  not_before claims =
      if not (claims.not_before == "")
      then instant codecs.parse_time claims.not_before
      else instant codecs.parse_time claims.issued_at

  unfoldable pub grace_days : Claims → ℕ
  grace_days claims = elim claims.grace_days [ pos n ↦ n | negsuc n ↦ 0 ]

  unfoldable pub grace_ends : Claims → Option ℕ
  grace_ends claims = elim claims.expires_at [
    | none ↦ none
    | some expires ↦ some (add_days (instant codecs.parse_time expires) (grace_days claims))
  ]

  unfoldable pub status_for : (now days : ℕ) → Option String → String
  status_for now days none = "enterprise-active"
  status_for now days (some expires) =
      let expires_at = instant codecs.parse_time expires in
      if not (ltb expires_at now)
      then "enterprise-active"
      else if not (ltb (add_days expires_at days) now)
      then "enterprise-grace"
      else "enterprise-expired"

  unfoldable pub status_at : ℕ → Claims → String
  status_at now claims = status_for now (grace_days claims) claims.expires_at

  unfoldable pub read_envelope : String → Result LicenseError Envelope
  read_envelope raw = elim (codecs.decode_envelope raw) [
    | none ↦ err malformed_envelope
    | some e ↦
        if raw == ""
          || not (e.format == "zhiyuan-license-v1")
          || e.key_id == ""
          || e.payload == ""
          || e.signature == ""
        then err malformed_envelope
        else ok e
  ]

  unfoldable pub read_claims : Envelope → Result LicenseError Claims
  read_claims envelope = elim (codecs.decode_claims envelope.payload) [
    | none ↦ err malformed_claims
    | some c ↦ if valid_claims codecs.parse_time c then ok c else err malformed_claims
  ]

  unfoldable pub find_key : LicenseVerifier → String → Result LicenseError Key
  find_key v key_id = elim (lookup key_id v.trusted_keys) [
    | none ↦ err unknown_signing_key
    | some k ↦ ok k
  ]

  unfoldable pub find_digest : Envelope → Claims → Result LicenseError String
  find_digest envelope claims = elim (envelope_digest envelope claims) [
    | none ↦ err no_digest
    | some d ↦ ok d
  ]

  unfoldable pub verify_license :
      LicenseVerifier → (now : ℕ) → String → Result LicenseError Verified
  verify_license v now raw = do
    envelope ← read_envelope raw
    key ← find_key v envelope.key_id
    claims ← read_claims envelope
    refuse_if (not (is_signed key envelope)) invalid_signature
    refuse_if
        (not (v.expected_deployment == "") && not (claims.deployment_id == v.expected_deployment))
        deployment_mismatch
    refuse_if (ltb now (not_before claims)) not_yet_valid
    digest ← find_digest envelope claims
    ok (record {
      envelope = envelope;
      claims = claims;
      digest = digest;
      status = status_at now claims;
      grace_ends_at = grace_ends claims;
    })
