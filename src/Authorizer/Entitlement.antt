-- ===== src/Authorizer/Entitlement.antt =====
-- verifier.go, `CheckEntitlement` and `ConfigureLicenseStatus`: the status of the licence behind an
-- entitlement token, cached for a time. Instants and durations are natural numbers; the answer of
-- the licence service is an argument of the step that asks it.
use agent_enterprise_protoco.Common.{
  ℕ, ◌+◌, String, Bool, not, ◌&&◌, ◌||◌, Option, none, some, List, [], ◌∷◌, ltb, if◌then◌else◌,
  ◌==◌, nat_eq, string_eq,
}
use agent_enterprise_protoco.Common.Results.{Result, ok, err}
use agent_enterprise_protoco.Common.Maps.{lookup, insert}
use agent_enterprise_protoco.Common.Text.{append}
use agent_enterprise_protoco.Authorizer.Claims.{ModelClaims, GatewayError, inactive, unavailable}

pub record StatusCacheEntry : Type 0 where
  pub active : Bool
  pub expires_at : ℕ

pub record StatusState : Type 0 where
  pub license_status_url : String
  pub license_status_token : String
  pub license_status_ttl : ℕ
  pub status_cache : List (String × StatusCacheEntry)

pub record StatusDocument : Type 0 where
  pub active : Bool
  pub digest : String
  pub deployment_id : String

-- No request could be made or sent, or a response with its decoded document.
pub data StatusResponse : Type 0 where
  failed : StatusResponse
  reply : (status : ℕ) → Option StatusDocument → StatusResponse

-- `endpoint` has lost its trailing slashes already.
unfoldable pub configure_license_status : (endpoint token : String) → ℕ → StatusState
configure_license_status endpoint token ttl = record {
  license_status_url = endpoint;
  license_status_token = token;
  license_status_ttl = ttl;
  status_cache = [];
}

-- `a + "\x00" + b`.
abbrev pub then_nul : String → String → String
then_nul s t = append s (String.◌∷◌ "\0" t)

unfoldable pub cache_key : ModelClaims → String → String
cache_key claims model_id = then_nul claims.license_id (
    then_nul claims.license_digest (
      then_nul claims.deployment_id
        (then_nul claims.subject (then_nul claims.session_id model_id))))

unfoldable pub is_live : ℕ → StatusCacheEntry → Bool
is_live now entry = ltb now entry.expires_at

-- `for cacheKey, cached := range v.statusCache { if !now.Before(cached.expiresAt) { delete(…) } }`.
unfoldable pub evict : ℕ → List (String × StatusCacheEntry) → List (String × StatusCacheEntry)
evict now [] = []
evict now ((k, entry) ∷ cache) =
    let rest = evict now cache in if not (is_live now entry) then rest else (k, entry) ∷ rest

unfoldable pub is_active : ModelClaims → StatusDocument → Bool
is_active claims document =
    document.active
    && document.digest == claims.license_digest
    && document.deployment_id == claims.deployment_id

abbrev pub answer : Bool → Result GatewayError (Unit {0})
answer active = if not active then err inactive else ok tt

unfoldable pub remember :
    ℕ
    → ModelClaims
    → String
    → StatusDocument
    → StatusState
    → Result GatewayError (Unit {0}) × StatusState
remember now claims model_id document s =
    let entry : StatusCacheEntry = record {
      active = is_active claims document;
      expires_at = now + s.license_status_ttl;
    } in
    (
      answer (is_active claims document),
      record s { status_cache = insert (cache_key claims model_id) entry s.status_cache },
    )

unfoldable pub ask_status :
    ℕ
    → ModelClaims
    → String
    → StatusResponse
    → StatusState
    → Result GatewayError (Unit {0}) × StatusState
ask_status now claims model_id failed s = (err unavailable, s)
ask_status now claims model_id (reply status none) s = (err unavailable, s)
ask_status now claims model_id (reply status (some document)) s =
    if not (status == 200) then (err unavailable, s) else remember now claims model_id document s

unfoldable pub check_cached :
    ℕ
    → ModelClaims
    → String
    → StatusResponse
    → StatusState
    → Option StatusCacheEntry
    → Result GatewayError (Unit {0}) × StatusState
check_cached now claims model_id response s none = ask_status now claims model_id response s
check_cached now claims model_id response s (some cached) =
    if is_live now cached
    then (answer cached.active, s)
    else ask_status now claims model_id response s

unfoldable pub check_entitlement :
    ℕ
    → ModelClaims
    → String
    → StatusResponse
    → StatusState
    → Result GatewayError (Unit {0}) × StatusState
check_entitlement now claims model_id response s =
    if s.license_status_url == "" || s.license_status_token == ""
    then (err unavailable, s)
    else let swept : StatusState = record s { status_cache = evict now s.status_cache } in
      check_cached now claims model_id response swept
        (lookup (cache_key claims model_id) swept.status_cache)
