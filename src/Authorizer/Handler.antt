-- ===== src/Authorizer/Handler.antt =====
-- handler.go: `TokenVerifier`, `EntitlementVerifier`, `Handler`, `withRequestID` and `ServeHTTP` up
-- to the call of the reverse proxy. The verifier keeps a state that each of its calls takes and
-- leaves; the answer of the identity service and a fresh request identifier are arguments.
use agent_enterprise_protoco.Common.{
  ℕ, String, Bool, not, ◌&&◌, ◌||◌, Option, none, some, List, ltb, if◌then◌else◌, ◌==◌, nat_eq,
  string_eq, contains,
}
use agent_enterprise_protoco.Common.Results.{Result, ok, err}
use Prim.Native.String.{len}
use agent_enterprise_protoco.Common.Text.{trim_space}
use agent_enterprise_protoco.Policy.Limits.{PolicyError, headers}
use agent_enterprise_protoco.Authorizer.Claims.{ModelClaims, GatewayError, inactive, unavailable}
use agent_enterprise_protoco.Authorizer.Http.{Header, get, set, valid_request_id, bearer_token}
use agent_enterprise_protoco.Authorizer.Body.{
  BodyError, request_too_large, invalid_request, RequestBody, read_model_request,
}
use agent_enterprise_protoco.Authorizer.Identity.{
  GatewayIdentity, IdentityResponse, identity, membership_header,
}
use agent_enterprise_protoco.Authorizer.Trust.{Established, forward_headers}

-- `checkEntitlement` is missing where the verifier is no `EntitlementVerifier`.
pub record TokenVerifier (S : Type 0) : Type 0 where
  pub verify : String → S → Result GatewayError ModelClaims × S
  pub ready : S → Result GatewayError (Unit {0}) × S
  pub check_entitlement : Option (ModelClaims → String → S → Result GatewayError (Unit {0}) × S)

pub record Gateway : Type 0 where
  pub limit : ℕ
  pub require_entitlement : Bool
  pub identity_url : String

pub record Request : Type 0 where
  pub method : String
  pub path : String
  pub header : Header
  pub body : RequestBody

-- What a request ends with: a JSON status, a problem with its HTTP status and its code, or the call
-- of the proxy with a header and, but for polling, the body.
pub data Outcome : Type 0 where
  healthy : Outcome
  problem : (status : ℕ) → (code : String) → Outcome
  forwarded : Header → Option RequestBody → Outcome

unfoldable pub with_request_id : (fresh : String) → Header → Header
with_request_id fresh h =
    let id = get h "X-Request-ID" in
    set h "X-Request-ID" (if valid_request_id id then id else fresh)

unfoldable pub check_ready : {S : Type 0} → Result GatewayError (Unit {0}) × S → Outcome × S
check_ready (ok _, s) = (healthy, s)
check_ready (err _, s) = (problem 503 "DEPENDENCY_UNAVAILABLE", s)

unfoldable pub body_problem : BodyError → Outcome
body_problem request_too_large = problem 413 "REQUEST_TOO_LARGE"
body_problem invalid_request = problem 400 "INVALID_REQUEST"

unfoldable pub entitlement_problem : GatewayError → Outcome
entitlement_problem inactive = problem 403 "ENTITLEMENT_INACTIVE"
entitlement_problem unavailable = problem 503 "ENTITLEMENT_CHECK_UNAVAILABLE"

unfoldable pub identity_problem : GatewayError → Outcome
identity_problem inactive = problem 403 "GATEWAY_IDENTITY_INACTIVE"
identity_problem unavailable = problem 503 "GATEWAY_IDENTITY_UNAVAILABLE"

-- `logTeams, _ = membershipHeader(identity.Teams)`.
unfoldable pub header_or_empty : Result GatewayError String → String
header_or_empty (ok value) = value
header_or_empty (err _) = ""

abbrev pub requested_model : Request → String
requested_model request = trim_space (get request.header "X-AEP-Model-ID")

unfoldable pub request_model : Gateway → Request → Result BodyError String
request_model g request =
    if request.method == "GET"
    then ok (requested_model request)
    else read_model_request request.body g.limit

-- The check of the entitlement, where it is required.
unfoldable pub checked_entitlement :
    {S : Type 0}
    → Option (ModelClaims → String → S → Result GatewayError (Unit {0}) × S)
    → ModelClaims
    → String
    → S
    → Result GatewayError (Unit {0}) × S
checked_entitlement none claims model s = (err unavailable, s)
checked_entitlement (some check) claims model s = check claims model s

unfoldable pub established :
    (encode : String → String)
    → Request
    → ModelClaims
    → String
    → GatewayIdentity
    → List (String × String)
    → Established
established encode request claims model identity policies = record {
  request_id = get request.header "X-Request-ID";
  consumer = identity.consumer;
  team_ids = header_or_empty (membership_header encode identity.teams);
  role_ids = header_or_empty (membership_header encode identity.roles);
  policy_headers = policies;
  deployment_id = claims.deployment_id;
  user_id = claims.subject;
  session_id = claims.session_id;
  model_id = model;
}

module _ {S : Type 0} (encode digest : String → String) (v : TokenVerifier S) (g : Gateway)
    (now : ℕ) (ask : ModelClaims → String → IdentityResponse) (request : Request) where
  unfoldable pub forward :
      ModelClaims → String → GatewayIdentity → Result PolicyError (List (String × String)) → Outcome
  forward claims model identity (err _) = problem 503 "GATEWAY_IDENTITY_UNAVAILABLE"
  forward claims model identity (ok policies) =
      forwarded
        (forward_headers (established encode request claims model identity policies) request.header)
        (if request.method == "GET" then none else some request.body)

  unfoldable pub serve_identity :
      ModelClaims → String → Result GatewayError GatewayIdentity → Outcome
  serve_identity claims model (err e) = identity_problem e
  serve_identity claims model (ok r) =
      forward claims model r (headers encode digest model claims.subject r.teams r.roles)

  unfoldable pub serve_entitled :
      ModelClaims → String → Result GatewayError (Unit {0}) × S → Outcome × S
  serve_entitled claims model (err e, s) = (entitlement_problem e, s)
  serve_entitled claims model (ok _, s) = (
    serve_identity claims model (identity encode g.identity_url now claims (ask claims model)),
    s,
  )

  unfoldable pub serve_model : ModelClaims → Result BodyError String → S → Outcome × S
  serve_model claims (err e) s = (body_problem e, s)
  serve_model claims (ok named) s =
      let model = trim_space named in
      if model == "" || ltb 256 (len model) || not (contains claims.model_scopes model)
      then (problem 403 "MODEL_NOT_ALLOWED", s)
      else if g.require_entitlement
      then serve_entitled claims model (checked_entitlement v.check_entitlement claims model s)
      else serve_entitled claims model (ok tt, s)

  unfoldable pub serve_claims : Result GatewayError ModelClaims × S → Outcome × S
  serve_claims (err _, s) = (problem 401 "TOKEN_INVALID", s)
  serve_claims (ok claims, s) =
      if g.require_entitlement && not (claims.token_use == "entitlement")
      then (problem 403 "ENTITLEMENT_REQUIRED", s)
      else serve_model claims (request_model g request) s

  unfoldable pub serve_token : Option String → S → Outcome × S
  serve_token none s = (problem 401 "TOKEN_INVALID", s)
  serve_token (some raw) s = serve_claims (v.verify raw s)

  -- `ServeHTTP` behind `withRequestID`.
  unfoldable pub serve_identified : S → Outcome × S
  serve_identified s =
      if request.path == "/livez"
      then (healthy, s)
      else if request.path == "/healthz" || request.path == "/readyz"
      then check_ready (v.ready s)
      else if request.method == "GET" && requested_model request == ""
      then (problem 404 "RESOURCE_NOT_FOUND", s)
      else if not (request.method == "POST") && not (request.method == "GET")
      then (problem 404 "RESOURCE_NOT_FOUND", s)
      else serve_token (bearer_token (get request.header "Authorization")) s

unfoldable pub serve_http :
    {S : Type 0} (encode digest : String → String) (v : TokenVerifier S) (g : Gateway) (now : ℕ)
    (ask : ModelClaims → String → IdentityResponse) (fresh : String) (request : Request)
    → S
    → Outcome × S
serve_http encode digest v g now ask fresh request s =
    serve_identified encode digest v g now ask
      (record request { header = with_request_id fresh request.header }) s
