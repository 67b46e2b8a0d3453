-- ===== src/Authorizer/Service.antt =====
-- The authorizer as it runs: `ServeHTTP` of handler.go with the `Verifier` of verifier.go, whose
-- state is the trusted keys and the statuses of licences. The answers that the other services would
-- give to this request are arguments.
use agent_enterprise_protoco.Common.{
  ℕ, String, ◌≡◌, ◌⊎◌, true, false, Option, some, List, nat_eq, string_eq, contains,
}
use agent_enterprise_protoco.Common.Results.{ok}
use agent_enterprise_protoco.Authorizer.Claims.{ModelClaims}
use agent_enterprise_protoco.Authorizer.Jwks.{Key, Jwk, Response, KeyStore, ready}
use agent_enterprise_protoco.Authorizer.Verifier.{Parser, verify}
use agent_enterprise_protoco.Authorizer.TokenTrust.{IsTrusted}
use agent_enterprise_protoco.Authorizer.Entitlement.{StatusState, StatusResponse, check_entitlement}
use agent_enterprise_protoco.Authorizer.Identity.{IdentityResponse}
use agent_enterprise_protoco.Authorizer.Handler.{
  TokenVerifier, Gateway, Request, Outcome, serve_http,
}

-- The services that the authorizer calls, as they answer while it serves one request.
pub record World : Type 0 where
  pub now : ℕ
  pub fetched_at : ℕ
  pub key_response : Response (List Jwk)
  pub status_response : ModelClaims → String → StatusResponse
  pub identity_response : ModelClaims → String → IdentityResponse
  pub fresh_id : String

abbrev pub VerifierState : Type 0
VerifierState = KeyStore × StatusState

abbrev over_keys : {A : Type 0} → A × KeyStore → StatusState → A × VerifierState
over_keys answer statuses = (answer.0, (answer.1, statuses))

abbrev over_statuses : {A : Type 0} → KeyStore → A × StatusState → A × VerifierState
over_statuses keys answer = (answer.0, (keys, answer.1))

module _ (decode : String → Option Key) (parse : Parser) (issuer : String) (w : World) where
  -- `*Verifier` as a `TokenVerifier` that is an `EntitlementVerifier`.
  unfoldable pub verifier : TokenVerifier VerifierState
  verifier = record {
    verify = λ raw (keys, statuses).
        over_keys (verify decode parse issuer w.now w.fetched_at w.key_response raw keys) statuses;
    ready = λ (keys, statuses).
        over_keys (ready decode w.now w.fetched_at w.key_response keys) statuses;
    check_entitlement = some (λ claims model (keys, statuses).
        over_statuses keys
          (check_entitlement w.now claims model (w.status_response claims model) statuses));
  }

  unfoldable pub serve :
      (encode digest : String → String)
      → Gateway
      → Request
      → VerifierState
      → Outcome × VerifierState
  serve encode digest g request s =
      serve_http encode digest verifier g w.now w.identity_response w.fresh_id request s

  -- What the authorizer has checked of the claims `claims`, for the model `model`.
  pub record IsGranted (Signed : String → Key → Type 0) (g : Gateway) (s s' : VerifierState)
      (raw : String) (claims : ModelClaims) (model : String) : Type 0 where
    pub trusted : IsTrusted decode Signed issuer w.now w.fetched_at w.key_response raw s.0 claims
    pub in_scope : contains claims.model_scopes model ≡ true
    pub entitlement_token : (g.require_entitlement ≡ false) ⊎ (claims.token_use ≡ "entitlement")
    pub licensed :
        (g.require_entitlement ≡ false)
        ⊎ (check_entitlement w.now claims model (w.status_response claims model) s.1
            ≡ (ok tt, s'.1))
