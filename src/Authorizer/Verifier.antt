-- ===== src/Authorizer/Verifier.antt =====
-- verifier.go, `Verify` and `containsAudience`. `jwt.ParseWithClaims` of github.com/golang-jwt/jwt
-- is a parameter: it is handed the key function and the options, and it answers with the claims of a
-- valid token or with an error, and with the trusted keys as the key function has left them.
use agent_enterprise_protoco.Common.{
  ℕ, String, Bool, true, false, not, ◌&&◌, ◌||◌, Option, none, some, List, [], ◌∷◌, if◌then◌else◌,
  ◌==◌, nat_eq, string_eq, contains,
}
use agent_enterprise_protoco.Common.Results.{Result, ok, err}
use agent_enterprise_protoco.Authorizer.Claims.{ModelClaims, GatewayError, unavailable}
use agent_enterprise_protoco.Authorizer.Jwks.{Key, Jwk, Response, KeyStore, key}

-- What the key function sees of a token: the algorithm of its method, and its header `kid`, empty
-- where it is no text.
pub record Token : Type 0 where
  pub alg : String
  pub kid : String

abbrev pub KeyFunction : Type 0
KeyFunction = Token → KeyStore → Result GatewayError Key × KeyStore

pub record Options : Type 0 where
  pub valid_methods : List String
  pub audience : List String
  pub issuer : String
  pub expiration_required : Bool
  pub check_issued_at : Bool

-- `ParseWithClaims` at a given time.
abbrev pub Parser : Type 0
Parser = String → KeyFunction → Options → ℕ → KeyStore → Option ModelClaims × KeyStore

module _ (decode : String → Option Key) where
  -- The closure that `Verify` passes.
  unfoldable pub key_function : (now done : ℕ) → Response (List Jwk) → KeyFunction
  key_function now done response token s =
      if not (token.alg == "EdDSA")
      then (err unavailable, s)
      else if token.kid == ""
      then (err unavailable, s)
      else key decode now done response token.kid s

unfoldable pub options : String → Options
options issuer = record {
  valid_methods = "EdDSA" ∷ [];
  audience = "model-gateway" ∷ "aep-entitlement" ∷ [];
  issuer = issuer;
  expiration_required = true;
  check_issued_at = true;
}

-- The tests of the AEP claims, behind those of the library.
unfoldable pub has_valid_claims : ModelClaims → Bool
has_valid_claims claims =
    if not (claims.token_use == "model") && not (claims.token_use == "entitlement")
      || claims.subject == ""
      || claims.deployment_id == ""
    then false
    else if claims.token_use == "model"
    then not (claims.session_id == "" || not (contains claims.audience "model-gateway"))
    else if claims.token_use == "entitlement"
    then not (
        claims.session_id == ""
        || claims.license_id == ""
        || claims.license_digest == ""
        || not (contains claims.audience "aep-entitlement"))
    else true

unfoldable pub check_claims : Option ModelClaims → Result GatewayError ModelClaims
check_claims none = err unavailable
check_claims (some claims) = if has_valid_claims claims then ok claims else err unavailable

module _ (decode : String → Option Key) (parse : Parser) (issuer : String) where
  unfoldable pub verify :
      (now done : ℕ)
      → Response (List Jwk)
      → String
      → KeyStore
      → Result GatewayError ModelClaims × KeyStore
  verify now done response raw s =
      let (parsed, s') = parse raw (key_function decode now done response) (options issuer) now s in
      (check_claims parsed, s')
