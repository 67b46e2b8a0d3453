-- ===== src/Authorizer/Access.antt =====
-- Which requests `ServeHTTP` of handler.go hands to the gateway, and with what.
use agent_enterprise_protoco.Common.{
  ℕ, ◌≤◌, String, ◌≡◌, refl, ap, ◌∙◌, ◌≢◌, ◌⊎◌, inl, inr, true, false, not, ◌||◌, Option, none,
  some, List, [], ◌∷◌, arith, eq_iff, ltb, if◌then◌else◌, Bool-cases, ◌==◌, nat_eq, string_eq,
  contains,
}
use agent_enterprise_protoco.Common.Results.{Result, ok, err}
use Prim.Native.String.{len}
use agent_enterprise_protoco.Common.Text.{trim_space}
use agent_enterprise_protoco.Policy.Limits.{PolicyError, headers}
use agent_enterprise_protoco.Authorizer.Claims.{ModelClaims, GatewayError, inactive, unavailable}
use agent_enterprise_protoco.Authorizer.Http.{Header, get, bearer_token}
use agent_enterprise_protoco.Authorizer.Body.{
  BodyError, request_too_large, invalid_request, RequestBody,
}
use agent_enterprise_protoco.Authorizer.Identity.{GatewayIdentity, IdentityResponse, identity}
use agent_enterprise_protoco.Authorizer.Trust.{forward_headers}
use agent_enterprise_protoco.Authorizer.Forwarding.{forward_subject}
use agent_enterprise_protoco.Common.Maps.{lookup}
use agent_enterprise_protoco.Authorizer.Handler.{
  TokenVerifier, Gateway, Request, Outcome, forwarded, with_request_id, entitlement_problem,
  identity_problem, body_problem, check_ready, request_model, established, forward, serve_identity,
  serve_entitled, checked_entitlement, serve_model, serve_claims, serve_token, serve_identified,
  serve_http,
}

module _ {S : Type 0} (encode digest : String → String) (v : TokenVerifier S) (g : Gateway)
    (now : ℕ) (ask : ModelClaims → String → IdentityResponse) (request : Request) where
  -- Everything that has been checked of a request whose header `out` goes to the gateway.
  pub record IsAuthorised (s s' : S) (out : Header) (body : Option RequestBody) : Type 0 where
    pub raw : String
    pub claims : ModelClaims
    pub verified_state : S
    pub named : String
    pub identity_found : GatewayIdentity
    pub policies : List (String × String)
    pub bearer : bearer_token (get request.header "Authorization") ≡ some raw
    pub verified : v.verify raw s ≡ (ok claims, verified_state)
    pub entitlement_token : (g.require_entitlement ≡ false) ⊎ (claims.token_use ≡ "entitlement")
    pub names_model : request_model g request ≡ ok named
    pub model_named : trim_space named ≢ ""
    pub model_short : len (trim_space named) ≤ 256
    pub model_granted : contains claims.model_scopes (trim_space named) ≡ true
    pub entitled :
        (if g.require_entitlement
          then checked_entitlement v.check_entitlement claims (trim_space named) verified_state
          else (ok tt, verified_state))
        ≡ (ok tt, s')
    pub identified :
        identity encode g.identity_url now claims (ask claims (trim_space named))
        ≡ ok identity_found
    pub represented :
        headers encode digest
          (trim_space named)
          claims.subject
          identity_found.teams
          identity_found.roles
        ≡ ok policies
    pub header_sent :
        out
        ≡ forward_headers
            (established encode request claims (trim_space named) identity_found policies)
            request.header

  -- The last steps: the identity and the policy headers.
  forward-eq :
      (claims : ModelClaims) (model : String) (r : GatewayIdentity)
      (found : Result PolicyError (List (String × String))) (out : Header)
      (body : Option RequestBody)
      → forward encode digest v g now ask request claims model r found ≡ forwarded out body
      → (policies : List (String × String)) × (found ≡ ok policies)
        × (out
            ≡ forward_headers (established encode request claims model r policies) request.header)
  unfolding forward
  forward-eq claims model r (err _) out body h = cc
  forward-eq claims model r (ok policies) out body h = (policies, refl, cc)

  serve_identity-eq :
      (claims : ModelClaims) (model : String) (found : Result GatewayError GatewayIdentity)
      (out : Header) (body : Option RequestBody)
      → serve_identity encode digest v g now ask request claims model found ≡ forwarded out body
      → (r : GatewayIdentity) × (found ≡ ok r)
        × (policies : List (String × String)) × (headers encode digest model claims.subject r.teams
              r.roles
            ≡ ok policies)
        × (out
            ≡ forward_headers (established encode request claims model r policies) request.header)
  unfolding serve_identity identity_problem
  serve_identity-eq claims model (err inactive) out body h = cc
  serve_identity-eq claims model (err unavailable) out body h = cc
  serve_identity-eq claims model (ok r) out body h =
      let (policies, found, sent) = forward-eq claims model r _ out body h in
      (r, refl, policies, found, sent)

  serve_entitled-eq :
      (claims : ModelClaims) (model : String) (checked : Result GatewayError (Unit {0}) × S)
      (out : Header) (body : Option RequestBody) (s' : S)
      → serve_entitled encode digest v g now ask request claims model checked
        ≡ (forwarded out body, s')
      → (checked ≡ (ok tt, s'))
        × (serve_identity encode digest v g now ask request claims model
              (identity encode g.identity_url now claims (ask claims model))
            ≡ forwarded out body)
  unfolding serve_entitled entitlement_problem
  serve_entitled-eq claims model (err inactive, s) out body s' h = cc
  serve_entitled-eq claims model (err unavailable, s) out body s' h = cc
  serve_entitled-eq claims model (ok tt, s) out body s' h =
      (ap (λ (x : Outcome × S). (ok tt, x.1)) h, ap (λ (x : Outcome × S). x.0) h)

  -- The guards on the model.
  serve_model-eq :
      (claims : ModelClaims) (found : Result BodyError String) (s s' : S) (out : Header)
      (body : Option RequestBody)
      → serve_model encode digest v g now ask request claims found s ≡ (forwarded out body, s')
      → (named : String) × (found ≡ ok named)
        × ((trim_space named == ""
              || ltb 256 (len (trim_space named))
              || not (contains claims.model_scopes (trim_space named)))
            ≡ false)
        × (serve_entitled encode digest v g now ask request claims (trim_space named) (
              if g.require_entitlement
              then checked_entitlement v.check_entitlement claims (trim_space named) s
              else (ok tt, s))
            ≡ (forwarded out body, s'))
  unfolding serve_model body_problem
  serve_model-eq claims (err request_too_large) s s' out body h = cc
  serve_model-eq claims (err invalid_request) s s' out body h = cc
  serve_model-eq claims (ok named) s s' out body h = elim (Bool-cases g.require_entitlement) [
    | inl required ↦ (named, refl, ground arith, rw required ground arith)
    | inr open_to_all ↦ (named, refl, ground arith, rw open_to_all ground arith)
  ]

  serve_claims-eq :
      (found : Result GatewayError ModelClaims × S) (s' : S) (out : Header)
      (body : Option RequestBody)
      → serve_claims encode digest v g now ask request found ≡ (forwarded out body, s')
      → (claims : ModelClaims) × (s : S) × (found ≡ (ok claims, s))
        × ((g.require_entitlement ≡ false) ⊎ (claims.token_use ≡ "entitlement"))
        × (serve_model encode digest v g now ask request claims (request_model g request) s
            ≡ (forwarded out body, s'))
  unfolding serve_claims
  serve_claims-eq (err e, s) s' out body h = cc
  serve_claims-eq (ok claims, s) s' out body h = (
    claims,
    s,
    refl,
    elim (Bool-cases g.require_entitlement) [
      | inl required ↦ inr (ground (arith, eq_iff claims.token_use "entitlement"))
      | inr free ↦ inl free
    ],
    ground arith,
  )

  serve_token-eq :
      (token : Option String) (s s' : S) (out : Header) (body : Option RequestBody)
      → serve_token encode digest v g now ask request token s ≡ (forwarded out body, s')
      → (raw : String) × (token ≡ some raw)
        × (serve_claims encode digest v g now ask request (v.verify raw s)
            ≡ (forwarded out body, s'))
  unfolding serve_token
  serve_token-eq none s s' out body h = cc
  serve_token-eq (some raw) s s' out body h = (raw, refl, h)

  check_ready-eq :
      (r : Result GatewayError (Unit {0}) × S) (s' : S) (out : Header) (body : Option RequestBody)
      → check_ready r ≡ (forwarded out body, s')
      → ⊥
  unfolding check_ready
  check_ready-eq (ok _, s) s' out body h = cc
  check_ready-eq (err _, s) s' out body h = cc

  serve_identified-eq :
      (s s' : S) (out : Header) (body : Option RequestBody)
      → serve_identified encode digest v g now ask request s ≡ (forwarded out body, s')
      → serve_token encode digest v g now ask request
          (bearer_token (get request.header "Authorization"))
          s
        ≡ (forwarded out body, s')
  unfolding serve_identified
  serve_identified-eq s s' out body h = ground (arith, check_ready-eq (v.ready s) s' out body)

  -- A request that reaches the gateway carries a bearer token that the verifier accepts; where an
  -- entitlement is required, it is an entitlement's, and the licence has been checked for this
  -- model; the model that the request names, of 1 to 256 bytes, is among the token's scopes; the
  -- identity has been found and its policies fit; and the header sent is the one built from these.
  pub serve_identified-IsAuthorised :
      (s s' : S) (out : Header) (body : Option RequestBody)
      → serve_identified encode digest v g now ask request s ≡ (forwarded out body, s')
      → IsAuthorised s s' out body
  serve_identified-IsAuthorised s s' out body h =
      let (raw, bearer, h₁) =
        serve_token-eq _ s s' out body (serve_identified-eq s s' out body h) in
      let (claims, s₁, verified, entitlement, h₂) = serve_claims-eq _ s' out body h₁ in
      let (named, names, guards, h₃) = serve_model-eq claims _ s₁ s' out body h₂ in
      let (entitled, h₄) = serve_entitled-eq claims (trim_space named) _ out body s' h₃ in
      let (r, identified, policies, fits, sent) =
        serve_identity-eq claims (trim_space named) _ out body h₄ in
      record {
        raw = raw;
        claims = claims;
        verified_state = s₁;
        named = named;
        identity_found = r;
        policies = policies;
        bearer = bearer;
        verified = verified;
        entitlement_token = entitlement;
        names_model = names;
        model_named = ground (arith, eq_iff (trim_space named) "");
        model_short = ground arith;
        model_granted = ground arith;
        entitled = entitled;
        identified = identified;
        represented = fits;
        header_sent = sent;
      }

-- The request with the identifier that `withRequestID` leaves in it.
abbrev pub identified_request : String → Request → Request
identified_request fresh request = record request { header = with_request_id fresh request.header }

pub serve_http-IsAuthorised :
    {S : Type 0} (encode digest : String → String) (v : TokenVerifier S) (g : Gateway) (now : ℕ)
    (ask : ModelClaims → String → IdentityResponse) (fresh : String) (request : Request) (s s' : S)
    (out : Header) (body : Option RequestBody)
    → serve_http encode digest v g now ask fresh request s ≡ (forwarded out body, s')
    → (a : IsAuthorised encode digest v g now ask (identified_request fresh request) s s' out body)
      × (lookup "X-Aep-User-Id" out ≡ some (a.claims.subject ∷ []))
      × (lookup "X-Aep-Deployment-Id" out ≡ some (a.claims.deployment_id ∷ []))
      × (lookup "X-Aep-Session-Id" out ≡ some (a.claims.session_id ∷ []))
      × (lookup "X-Aep-Model-Id" out ≡ some (trim_space a.named ∷ []))
unfolding serve_http established
serve_http-IsAuthorised encode digest v g now ask fresh request s s' out body h =
    let request' = identified_request fresh request in
    let a = serve_identified-IsAuthorised encode digest v g now ask request' s s' out body h in
    let subject =
      forward_subject
        (established encode request' a.claims (trim_space a.named) a.identity_found a.policies)
        request'.header in
    (
      a,
      ap (lookup "X-Aep-User-Id") a.header_sent ∙ subject.1,
      ap (lookup "X-Aep-Deployment-Id") a.header_sent ∙ subject.0,
      ap (lookup "X-Aep-Session-Id") a.header_sent ∙ subject.2,
      ap (lookup "X-Aep-Model-Id") a.header_sent ∙ subject.3,
    )
