-- ===== src/Authorizer/Examples.antt =====
-- A request served, evaluated: tests and instances of the properties of the authorizer.
use agent_enterprise_protoco.Common.{
  ℕ, ◌+◌, ◌≤◌, ◌<◌, String, ◌≡◌, refl, ◌≢◌, ◌⊎◌, true, false, none, some, List, [], ◌∷◌, arith,
  length, nat_eq, string_eq, contains, sort_by,
}
use agent_enterprise_protoco.Common.Results.{ok, err}
use agent_enterprise_protoco.Common.Maps.{lookup, insert, delete, keep}
use agent_enterprise_protoco.Common.Text.{trim_space, to_lower, cut_space}
use agent_enterprise_protoco.Policy.Limits.{
  headers, collect_headers, add, add_all, subject_header, key, model_part,
}
use agent_enterprise_protoco.Authorizer.Claims.{GatewayError}
use agent_enterprise_protoco.Authorizer.Http.{
  get, set, del, canonical, set_trusted_header, remove_untrusted_aep_headers, is_aep_name,
  valid_request_id, bearer_token,
}
use agent_enterprise_protoco.Authorizer.Jwks
use agent_enterprise_protoco.Authorizer.Jwks.{Key, Jwk, KeyStore, Offered}
use agent_enterprise_protoco.Authorizer.KeyTrust.{key_trusted, refresh_outcomes, Accepted}
use agent_enterprise_protoco.Authorizer.Staleness.{
  Call, In, Confirms, after, check_entitlement_recent, cache_key_inj, NulFree,
}
use agent_enterprise_protoco.Authorizer.Verifier.{
  key_function, options, has_valid_claims, check_claims, verify,
}
use agent_enterprise_protoco.Authorizer.TokenTrust.{verify-IsTrusted, IsTrusted}
use agent_enterprise_protoco.Authorizer.Entitlement
use agent_enterprise_protoco.Authorizer.Entitlement.{
  StatusState, StatusDocument, StatusResponse, check_entitlement,
}
use agent_enterprise_protoco.Authorizer.Body.{
  read_model_request, model_field, json_model_field, exact_model,
}
use agent_enterprise_protoco.Authorizer.Identity.{
  GatewayIdentity, IdentityResponse, identity, claimed_identity, consumer, membership_header, IsOwn,
  IsTimely, identity-IsOwn,
}
use agent_enterprise_protoco.Authorizer.Identity
use agent_enterprise_protoco.Authorizer.Trust.{Established, forward_headers}
use agent_enterprise_protoco.Authorizer.Forwarding.{forward_subject, forward_others, passed}
use agent_enterprise_protoco.Authorizer.Handler
use agent_enterprise_protoco.Authorizer.Handler.{
  TokenVerifier, Gateway, Request, Outcome, healthy, problem, forwarded, serve_http,
}
use agent_enterprise_protoco.Authorizer.Access.{serve_http-IsAuthorised}
use agent_enterprise_protoco.Authorizer.Completeness.{is_inference, IsAuthorised-serve_http}
use agent_enterprise_protoco.Authorizer.Service.{VerifierState, verifier, serve}
use agent_enterprise_protoco.Authorizer.Sample.{
  claims, admits, accepted, parse, Signed, parse-IsParser, key_bytes, decode, key_response, no_keys,
  one_key, found_identity, statuses, active, answer, same, gateway, request, world, served, sent_by,
  body_of, out,
}

run : Unit {0}
unfolding serve serve_http verifier sent_by body_of parse admits accepted get set canonical
    valid_request_id bearer_token is_aep_name to_lower del set_trusted_header
    remove_untrusted_aep_headers lookup insert delete keep forward_headers trim_space cut_space
    Jwks.key Jwks.refresh Jwks.after_refresh Jwks.fetch_keys Jwks.read_keys Jwks.collect_keys
    Jwks.add_key Jwks.is_usable Jwks.is_fresh Jwks.found_key verify key_function options
    has_valid_claims check_claims Entitlement.check_entitlement Entitlement.evict
    Entitlement.check_cached Entitlement.ask_status Entitlement.remember Entitlement.is_active
    Entitlement.cache_key Identity.identity Identity.read_identity Identity.accept_identity
    Identity.is_foreign Identity.is_untimely Identity.membership_header Identity.encode_ids
    Identity.join_bars Identity.compact claimed_identity consumer Handler.request_model
    Handler.established Handler.forward Handler.serve_identity Handler.serve_entitled
    Handler.checked_entitlement Handler.serve_model Handler.serve_claims Handler.serve_token
    Handler.serve_identified Handler.with_request_id Handler.header_or_empty headers collect_headers
    add add_all subject_header key model_part read_model_request model_field json_model_field
    exact_model sort_by contains
run = tt

-- The client's user is replaced, its other header passes, and the teams are sorted, each once.
sent_test :
    (lookup "X-Aep-User-Id" out ≡ some ("ann" ∷ []))
    × (lookup "Accept" out ≡ some ("*" ∷ []))
    × (lookup "Authorization" out ≡ none)
    × (lookup "X-Aep-Team-Ids" out ≡ some ("|a|b|" ∷ []))
    × (served.1.0.fetched_at ≡ some 10)
unfolding run
sent_test = (refl, refl, refl, refl, refl)

abbrev verifying : TokenVerifier VerifierState
verifying = verifier decode parse "aep" world

verify-IsTrusted_example : IsTrusted decode Signed "aep" 10 10 key_response "good" no_keys claims
unfolding run
verify-IsTrusted_example =
    verify-IsTrusted decode Signed parse "aep" 10 10 key_response "good" no_keys one_key claims
      parse-IsParser refl

key_trusted_example :
    ((one_key ≡ no_keys)
      × (Jwks.is_fresh no_keys 10 ≡ true)
      × (lookup "k" no_keys.keys ≡ some key_bytes))
    ⊎ ((items : List Jwk) × Accepted decode key_response items
        × Offered decode items "k" key_bytes
        × (one_key.fetched_at ≡ some 10))
unfolding run
key_trusted_example = key_trusted decode 10 10 key_response "k" no_keys one_key key_bytes refl

refresh_outcomes_test :
    ((e : GatewayError) × (Jwks.refresh decode true 10 10 key_response no_keys ≡ (err e, no_keys)))
    ⊎ ((Jwks.refresh decode true 10 10 key_response no_keys ≡ (ok tt, no_keys))
        × (true ≡ false)
        × (Jwks.is_fresh no_keys 10 ≡ true))
    ⊎ ((items : List Jwk) × Accepted decode key_response items
        × (0 < length (Jwks.collect_keys decode items []))
        × (Jwks.refresh decode true 10 10 key_response no_keys ≡ (
          ok tt,
          record no_keys { keys = Jwks.collect_keys decode items []; fetched_at = some 10 },
        )))
refresh_outcomes_test = refresh_outcomes decode true 10 10 key_response no_keys

-- A check now, one that the cache answers, and the one that filled it.
abbrev call : ℕ → Call
call now = record { now = now; claims = claims; model_id = "m"; response = active }

check_entitlement_recent_example :
    (c : Call) × In c (call 14 ∷ call 12 ∷ call 10 ∷ [])
    × (Entitlement.cache_key c.claims c.model_id ≡ Entitlement.cache_key claims "m")
    × Confirms c
    × (14 ≤ c.now + 5)
unfolding run after Entitlement.is_live
check_entitlement_recent_example =
    check_entitlement_recent statuses (call 12 ∷ call 10 ∷ []) (call 14) refl refl

claims-NulFree : NulFree claims
claims-NulFree = (
  (λ e. omega arith, tt),
  (λ e. omega arith, tt),
  (λ e. omega arith, tt),
  (λ e. omega arith, (λ e. omega arith, (λ e. omega arith, tt))),
  (λ e. omega arith, tt),
)

cache_key_inj_test :
    (claims.license_id ≡ claims.license_id)
    × (claims.license_digest ≡ claims.license_digest)
    × (claims.deployment_id ≡ claims.deployment_id)
    × (claims.subject ≡ claims.subject)
    × (claims.session_id ≡ claims.session_id)
    × (Path String "m" "m")
cache_key_inj_test = cache_key_inj claims claims "m" "m" claims-NulFree claims-NulFree refl

identity-IsOwn_example :
    ((gateway.identity_url ≡ "") × (found_identity ≡ claimed_identity same claims))
    ⊎ ((gateway.identity_url ≢ "")
        × IsOwn same 10 claims found_identity
        × IsTimely same 10 found_identity)
unfolding run
identity-IsOwn_example = identity-IsOwn same "i" 10 claims answer found_identity refl

abbrev established : Established
established = record {
  request_id = "r";
  consumer = "aep.d.ann";
  team_ids = "|a|";
  role_ids = "";
  policy_headers = ("x-aep-limit-1", "1") ∷ [];
  deployment_id = "d";
  user_id = "ann";
  session_id = "s";
  model_id = "m";
}

forward_subject_test :
    (lookup "X-Aep-Deployment-Id" (forward_headers established request.header) ≡ some ("d" ∷ []))
    × (lookup "X-Aep-User-Id" (forward_headers established request.header) ≡ some ("ann" ∷ []))
    × (lookup "X-Aep-Session-Id" (forward_headers established request.header) ≡ some ("s" ∷ []))
    × (lookup "X-Aep-Model-Id" (forward_headers established request.header) ≡ some ("m" ∷ []))
forward_subject_test = forward_subject established request.header

forward_others_test :
    lookup "Accept" (forward_headers established request.header)
    ≡ passed "Accept" established (lookup "Accept" request.header)
unfolding run
forward_others_test = forward_others "Accept" established request.header (refl, tt) refl

IsAuthorised-serve_http_example :
    serve_http same same verifying gateway 10 world.identity_response "r" request
      (no_keys, statuses)
    ≡ (forwarded out (some request.body), served.1)
unfolding run is_inference
IsAuthorised-serve_http_example =
    IsAuthorised-serve_http same same verifying gateway 10 world.identity_response "r" request
      (no_keys, statuses) served.1 out (body_of served.0) refl
      (serve_http-IsAuthorised same same verifying gateway 10 world.identity_response "r" request
        (no_keys, statuses) served.1 out (body_of served.0) refl).0
