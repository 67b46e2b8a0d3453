-- ===== src/Authorizer/TokenTrust.antt =====
-- What a token that `Verify` of verifier.go accepts has been shown to be.
use agent_enterprise_protoco.Common.{
  ℕ, ◌<◌, String, ◌≡◌, refl, ap, ◌≢◌, ◌⊎◌, inl, inr, true, Option, none, some, List, arith, eq_iff,
  Bool-cases, any, ◌==◌, nat_eq, string_eq, contains,
}
use agent_enterprise_protoco.Common.Results.{Result, ok}
use agent_enterprise_protoco.Common.Maps.{lookup}
use agent_enterprise_protoco.Authorizer.Claims.{ModelClaims, GatewayError}
use agent_enterprise_protoco.Authorizer.Jwks.{Key, Jwk, Response, KeyStore, is_fresh, key, Offered}
use agent_enterprise_protoco.Authorizer.KeyTrust.{Accepted, key_trusted}
use agent_enterprise_protoco.Authorizer.Verifier.{
  Token, KeyFunction, Options, Parser, key_function, options, has_valid_claims, check_claims,
  verify,
}

-- What the documentation of jwt/v5 says of `ParseWithClaims` with these options. `Signed raw k`
-- says that the signature of the token `raw` verifies under the key `k`.
pub record IsParser (Signed : String → Key → Type 0) (parse : Parser) : Type 1 where
  pub sound :
      (raw : String) (f : KeyFunction) (o : Options) (now : ℕ) (s s' : KeyStore) (c : ModelClaims)
      → parse raw f o now s ≡ (some c, s')
      → (token : Token) × (k : Key) × (f token s ≡ (ok k, s'))
        × Signed raw k
        × (contains o.valid_methods token.alg ≡ true)
        × (any (contains o.audience) c.audience ≡ true)
        × (o.issuer ≢ "" → c.issuer ≡ o.issuer)
        × (o.expiration_required ≡ true → (t : ℕ) × (c.expires_at ≡ some t) × (now < t))

-- The claims of a session's token, and the further ones of an entitlement's.
pub record IsSessionToken (claims : ModelClaims) : Type 0 where
  pub subject_named : claims.subject ≢ ""
  pub deployment_named : claims.deployment_id ≢ ""
  pub session_named : claims.session_id ≢ ""
  pub fits_use :
      ((claims.token_use ≡ "model") × (contains claims.audience "model-gateway" ≡ true))
      ⊎ ((claims.token_use ≡ "entitlement")
          × (contains claims.audience "aep-entitlement" ≡ true)
          × (claims.license_id ≢ "")
          × (claims.license_digest ≢ ""))

has_valid_claims-IsSessionToken :
    (claims : ModelClaims) → has_valid_claims claims ≡ true → IsSessionToken claims
unfolding has_valid_claims
has_valid_claims-IsSessionToken claims h = record {
  subject_named = ground (arith, eq_iff claims.subject "");
  deployment_named = ground (arith, eq_iff claims.deployment_id "");
  session_named = ground (
    arith,
    eq_iff claims.session_id "",
    eq_iff claims.token_use "model",
    eq_iff claims.token_use "entitlement",
  );
  fits_use = ground (
    arith,
    eq_iff claims.token_use "model",
    eq_iff claims.token_use "entitlement",
    eq_iff claims.license_id "",
    eq_iff claims.license_digest "",
  );
}

check_claims-ok :
    (parsed : Option ModelClaims) (claims : ModelClaims)
    → check_claims parsed ≡ ok claims
    → (parsed ≡ some claims) × (has_valid_claims claims ≡ true)
unfolding check_claims
check_claims-ok none claims h = cc
check_claims-ok (some c) claims h = ground arith

key_function-ok :
    (decode : String → Option Key) (now done : ℕ) (response : Response (List Jwk)) (token : Token)
    (s s' : KeyStore) (k : Key)
    → key_function decode now done response token s ≡ (ok k, s')
    → (token.alg ≡ "EdDSA")
      × (token.kid ≢ "")
      × (key decode now done response token.kid s ≡ (ok k, s'))
unfolding key_function
key_function-ok decode now done response token s s' k h =
    (ground (arith, eq_iff token.alg "EdDSA"), ground (arith, eq_iff token.kid ""), ground (arith))

-- What `Verify` establishes of the claims that it returns: the token is signed, with EdDSA, under a
-- key that is trusted; it is issued by the configured issuer, unexpired, meant for the gateway, and
-- bound to a user, a deployment and a session, and to a licence if it is an entitlement.
pub record IsTrusted (decode : String → Option Key) (Signed : String → Key → Type 0)
    (issuer : String) (now done : ℕ) (response : Response (List Jwk)) (raw : String) (s : KeyStore)
    (claims : ModelClaims) : Type 0 where
  pub session_token : IsSessionToken claims
  pub signer :
      (token : Token) × (k : Key) × (token.alg ≡ "EdDSA")
      × (token.kid ≢ "")
      × Signed raw k
      × (((is_fresh s now ≡ true) × (lookup token.kid s.keys ≡ some k))
          ⊎ ((items : List Jwk) × Accepted decode response items
              × Offered decode items token.kid k))
  pub issued_by : (issuer ≡ "") ⊎ (claims.issuer ≡ issuer)
  pub unexpired : (t : ℕ) × (claims.expires_at ≡ some t) × (now < t)

-- For a token library that keeps to its documentation: the claims that `Verify` accepts come from a
-- token that is signed, with EdDSA, under a trusted key; they are unexpired, of the configured issuer,
-- if there is one, and bound to a user, a deployment and a session, and to a licence if they are an
-- entitlement.
pub verify-IsTrusted :
    (decode : String → Option Key) (Signed : String → Key → Type 0) (parse : Parser)
    (issuer : String) (now done : ℕ) (response : Response (List Jwk)) (raw : String)
    (s s' : KeyStore) (claims : ModelClaims)
    → IsParser Signed parse
    → verify decode parse issuer now done response raw s ≡ (ok claims, s')
    → IsTrusted decode Signed issuer now done response raw s claims
unfolding verify options
verify-IsTrusted decode Signed parse issuer now done response raw s s' claims p h =
    let f = key_function decode now done response in
    let kept : (parse raw f (options issuer) now s).1 ≡ s' =
      ap (λ (x : Result GatewayError ModelClaims × KeyStore). x.1) h in
    let (parsed, valid) =
      check_claims-ok (parse raw f (options issuer) now s).0 claims
        (ap (λ (x : Result GatewayError ModelClaims × KeyStore). x.0) h) in
    let whole : parse raw f (options issuer) now s ≡ (some claims, s') = cc in
    let (token, k, keyed, signed, _, _, iss, exp) =
      p.sound raw f (options issuer) now s s' claims whole in
    let (alg, kid, held) = key_function-ok decode now done response token s s' k keyed in
    record {
      session_token = has_valid_claims-IsSessionToken claims valid;
      signer = (
        token,
        k,
        alg,
        kid,
        signed,
        elim (key_trusted decode now done response token.kid s s' k held) [
          | inl (_, fresh, m) ↦ inl (fresh, m)
          | inr (items, a, o, _) ↦ inr (items, a, o)
        ],
      );
      issued_by = elim (Bool-cases (issuer == "")) [
        | inl unset ↦ inl ((eq_iff issuer "").0 unset)
        | inr set_up ↦ inr (iss (λ e. ground (arith, (eq_iff issuer "").1 e)))
      ];
      unexpired = exp refl;
    }
