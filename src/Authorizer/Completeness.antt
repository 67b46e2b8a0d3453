-- ===== src/Authorizer/Completeness.antt =====
-- Which requests `ServeHTTP` of handler.go cannot refuse.
use agent_enterprise_protoco.Common.{
  ℕ, ◌≤◌, String, ◌≡◌, refl, ap, ◌∙◌, ◌≢◌, inl, inr, Bool, true, false, not, ◌&&◌, ◌||◌, Option,
  none, some, arith, eq_iff, ltb, if◌then◌else◌, ◌==◌, nat_eq, string_eq, contains,
}
use agent_enterprise_protoco.Common.Results.{ok}
use Prim.Native.String.{len}
use agent_enterprise_protoco.Common.Text.{trim_space}
use agent_enterprise_protoco.Authorizer.Claims.{ModelClaims}
use agent_enterprise_protoco.Authorizer.Http.{Header, get, bearer_token}
use agent_enterprise_protoco.Authorizer.Body.{RequestBody}
use agent_enterprise_protoco.Authorizer.Identity.{IdentityResponse}
use agent_enterprise_protoco.Authorizer.Handler.{
  TokenVerifier, Gateway, Request, forwarded, requested_model, forward, serve_identity,
  serve_entitled, checked_entitlement, serve_model, serve_claims, serve_token, serve_identified,
  serve_http,
}
use agent_enterprise_protoco.Authorizer.Access.{IsAuthorised, identified_request}

-- A request that is not about health and has a method that names a model.
unfoldable pub is_inference : Request → Bool
is_inference request =
    not (request.path == "/livez")
    && not (request.path == "/healthz")
    && not (request.path == "/readyz")
    && (request.method == "POST" || request.method == "GET" && not (requested_model request == ""))

abbrev pub body_sent : Request → Option RequestBody
body_sent request = if request.method == "GET" then none else some request.body

not_both : (method : String) → (method == "POST") ≡ true → (method == "GET") ≡ false
not_both method h = let post = (eq_iff method "POST").0 h in rw post refl

inference_guards :
    (request : Request)
    → is_inference request ≡ true
    → ((request.path == "/livez") ≡ false)
      × ((request.path == "/healthz" || request.path == "/readyz") ≡ false)
      × ((request.method == "GET" && requested_model request == "") ≡ false)
      × ((not (request.method == "POST") && not (request.method == "GET")) ≡ false)
unfolding is_inference
inference_guards request h =
    (ground arith, ground arith, ground (arith, not_both request.method), ground arith)

model_guard :
    (claims : ModelClaims) (model : String)
    → model ≢ ""
    → len model ≤ 256
    → contains claims.model_scopes model ≡ true
    → (model == "" || ltb 256 (len model) || not (contains claims.model_scopes model)) ≡ false
model_guard claims model named short granted = ground (arith, eq_iff model "")

-- A step behind a test is the step of the tested value.
if_apart :
    {A B : Type 0} (f : A → B) (b : Bool) (x y : A)
    → (if b then f x else f y) ≡ f (if b then x else y)
if_apart f true x y = refl
if_apart f false x y = refl

module _ {S : Type 0} (encode digest : String → String) (v : TokenVerifier S) (g : Gateway)
    (now : ℕ) (ask : ModelClaims → String → IdentityResponse) (request : Request) where
  route :
      (s : S)
      → is_inference request ≡ true
      → serve_identified encode digest v g now ask request s
        ≡ serve_token encode digest v g now ask request
            (bearer_token (get request.header "Authorization"))
            s
  unfolding serve_identified is_inference
  route s h =
      let (live, health, polling, method) = inference_guards request h in
      rw (serve_identified, live, health, polling, method) refl

  identified :
      (s s' : S) (out : Header) (body : Option RequestBody)
      → (a : IsAuthorised encode digest v g now ask request s s' out body)
      → serve_entitled encode digest v g now ask request a.claims (trim_space a.named) (ok tt, s')
        ≡ (forwarded out (body_sent request), s')
  unfolding serve_entitled serve_identity forward
  identified s s' out body a =
      rw (serve_entitled, a.identified, serve_identity, a.represented, forward, a.header_sent) refl

  model_checked :
      (s s' : S) (out : Header) (body : Option RequestBody)
      → (a : IsAuthorised encode digest v g now ask request s s' out body)
      → serve_model encode digest v g now ask request a.claims (ok a.named) a.verified_state
        ≡ (forwarded out (body_sent request), s')
  unfolding serve_model
  model_checked s s' out body a =
      let guard =
        model_guard a.claims (trim_space a.named) a.model_named a.model_short a.model_granted in
      let passes = serve_entitled encode digest v g now ask request a.claims (trim_space a.named) in
      let checked =
        checked_entitlement v.check_entitlement a.claims (trim_space a.named) a.verified_state in
      rw (serve_model, guard)
        (if_apart passes g.require_entitlement checked (ok tt, a.verified_state)
          ∙ ap passes a.entitled
          ∙ identified s s' out body a)

  claims_checked :
      (s s' : S) (out : Header) (body : Option RequestBody)
      → (a : IsAuthorised encode digest v g now ask request s s' out body)
      → serve_claims encode digest v g now ask request (ok a.claims, a.verified_state)
        ≡ (forwarded out (body_sent request), s')
  unfolding serve_claims
  claims_checked s s' out body a =
      let guard : (g.require_entitlement && not (a.claims.token_use == "entitlement")) ≡ false =
        elim a.entitlement_token [
          | inl free ↦ ground (arith, free)
          | inr use_known ↦ ground (arith, (eq_iff a.claims.token_use "entitlement").1 use_known)
        ] in
      rw (serve_claims, guard, a.names_model) (model_checked s s' out body a)

-- No request that passes the checks is refused: an inference request for which everything holds
-- that `serve_http-IsAuthorised` shows of a forwarded one is forwarded, with the header that is
-- built from what has been checked, and with its body unless it only polls.
pub IsAuthorised-serve_http :
    {S : Type 0} (encode digest : String → String) (v : TokenVerifier S) (g : Gateway) (now : ℕ)
    (ask : ModelClaims → String → IdentityResponse) (fresh : String) (request : Request) (s s' : S)
    (out : Header) (body : Option RequestBody)
    → is_inference (identified_request fresh request) ≡ true
    → IsAuthorised encode digest v g now ask (identified_request fresh request) s s' out body
    → serve_http encode digest v g now ask fresh request s ≡ (forwarded out (body_sent request), s')
unfolding serve_http serve_token
IsAuthorised-serve_http encode digest v g now ask fresh request s s' out body h a =
    let request' = identified_request fresh request in
    route encode digest v g now ask request' s h
    ∙ rw (a.bearer, serve_token, a.verified)
        (claims_checked encode digest v g now ask request' s s' out body a)
