-- ===== src/Authorizer/Settings.antt =====
-- config.go: `Config` and `Validate`. `parse` stands for `url.Parse`; durations are nanoseconds.
use agent_enterprise_protoco.Common.{
  ℕ, ◌≤◌, String, ◌≡◌, ◌≢◌, Bool, true, false, not, ◌&&◌, ◌||◌, Option, none, some, List, [], ◌∷◌,
  arith, eq_iff, ltb, if◌then◌else◌, ◌==◌, nat_eq, string_eq, contains,
}
use agent_enterprise_protoco.Common.Results.{
  >>-eq-ok, refuse_if-passed, Result, ok, refuse_if, refuse_if-ok, ◌>>◌,
}

-- What the code reads of a parsed URL.
pub record Url : Type 0 where
  pub scheme : String
  pub host : String
  pub has_user : Bool
  pub raw_query : String
  pub fragment : String

pub record Config : Type 0 where
  pub environment : String
  pub log_format : String
  pub log_level : String
  pub upstream_url : String
  pub jwks_url : String
  pub issuer : String
  pub require_entitlement : Bool
  pub license_status_url : String
  pub license_status_token : String
  pub license_status_ttl : ℕ
  pub identity_url : String

pub data ConfigError : Type 0 where
  invalid_identity invalid_environment invalid_log_format invalid_log_level invalid_endpoint
        invalid_license_status missing_license_status entitlement_optional
        license_status_ttl_too_long :
      ConfigError

-- 15 seconds
abbrev pub max_production_license_status_ttl : ℕ
max_production_license_status_ttl = 15000000000

module _ (parse : String → Option Url) where
  -- An absolute HTTP URL.
  unfoldable pub is_absolute : Option Url → Bool
  is_absolute none = false
  is_absolute (some u) = not (u.host == "") && (u.scheme == "http" || u.scheme == "https")

  unfoldable pub is_plain : Option Url → Bool
  is_plain none = false
  is_plain (some u) = not u.has_user && u.raw_query == "" && u.fragment == ""

  unfoldable pub validate_identity : Config → Result ConfigError (Unit {0})
  validate_identity cfg =
      refuse_if
        (not (cfg.identity_url == "")
          && (not (is_absolute (parse cfg.identity_url))
              || not (is_plain (parse cfg.identity_url))
              || cfg.license_status_token == ""))
        invalid_identity

  unfoldable pub validate_endpoints : List String → Result ConfigError (Unit {0})
  validate_endpoints [] = ok tt
  validate_endpoints (endpoint ∷ endpoints) = do
    refuse_if (not (is_absolute (parse endpoint))) invalid_endpoint
    validate_endpoints endpoints

  unfoldable pub validate_names : Config → Result ConfigError (Unit {0})
  validate_names cfg = do
    refuse_if (not (contains ("development" ∷ "test" ∷ "production" ∷ []) cfg.environment))
        invalid_environment
    refuse_if (not (contains ("text" ∷ "json" ∷ []) cfg.log_format)) invalid_log_format
    refuse_if (not (contains ("debug" ∷ "info" ∷ "warn" ∷ "error" ∷ []) cfg.log_level))
        invalid_log_level

  unfoldable pub validate_licence : Config → Result ConfigError (Unit {0})
  validate_licence cfg = do
    refuse_if
        (not (cfg.license_status_url == "") && not (is_absolute (parse cfg.license_status_url)))
        invalid_license_status
    refuse_if
        (cfg.require_entitlement
          && (cfg.license_status_url == "" || cfg.license_status_token == ""))
        missing_license_status

  unfoldable pub validate_strict : Config → Result ConfigError (Unit {0})
  validate_strict cfg = do
    refuse_if (not cfg.require_entitlement) entitlement_optional
    refuse_if (ltb max_production_license_status_ttl cfg.license_status_ttl)
        license_status_ttl_too_long

  unfoldable pub validate_production : Config → Result ConfigError (Unit {0})
  validate_production cfg = if cfg.environment == "production" then validate_strict cfg else ok tt

  unfoldable pub validate : Config → Result ConfigError (Unit {0})
  validate cfg = do
    validate_identity cfg
    validate_names cfg
    validate_endpoints (cfg.upstream_url ∷ cfg.jwks_url ∷ cfg.issuer ∷ [])
    validate_licence cfg
    validate_production cfg

  -- What the authorizer relies on in production: every request needs a licence that is checked, at a
  -- service that is configured, at least every 15 seconds.
  pub record IsProductionReady (cfg : Config) : Type 0 where
    pub enforced : cfg.require_entitlement ≡ true
    pub service_named : cfg.license_status_url ≢ ""
    pub service_absolute : is_absolute (parse cfg.license_status_url) ≡ true
    pub service_token : cfg.license_status_token ≢ ""
    pub checked_often : cfg.license_status_ttl ≤ max_production_license_status_ttl
    pub keys_absolute : is_absolute (parse cfg.jwks_url) ≡ true
    pub upstream_absolute : is_absolute (parse cfg.upstream_url) ≡ true

  endpoints-ok :
      (a b c : String)
      → validate_endpoints (a ∷ b ∷ c ∷ []) ≡ ok tt
      → (is_absolute (parse a) ≡ true)
        × (is_absolute (parse b) ≡ true)
        × (is_absolute (parse c) ≡ true)
  unfolding validate_endpoints
  endpoints-ok a b c h =
      let (e₁, h₁) = refuse_if-ok (not (is_absolute (parse a))) invalid_endpoint _ h in
      let (e₂, h₂) = refuse_if-ok (not (is_absolute (parse b))) invalid_endpoint _ h₁ in
      let (e₃, h₃) = refuse_if-ok (not (is_absolute (parse c))) invalid_endpoint _ h₂ in
      (ground arith, ground arith, ground arith)

  licence-ok :
      (cfg : Config)
      → validate_licence cfg ≡ ok tt
      → cfg.require_entitlement ≡ true
      → (cfg.license_status_url ≢ "")
        × (is_absolute (parse cfg.license_status_url) ≡ true)
        × (cfg.license_status_token ≢ "")
  unfolding validate_licence
  licence-ok cfg h required =
      let stray =
        not (cfg.license_status_url == "") && not (is_absolute (parse cfg.license_status_url)) in
      let missing =
        cfg.require_entitlement
        && (cfg.license_status_url == "" || cfg.license_status_token == "") in
      let (e, h₁) =
        refuse_if-ok stray invalid_license_status (refuse_if missing missing_license_status) h in
      let f = refuse_if-passed missing missing_license_status h₁ in
      (
        ground (arith, eq_iff cfg.license_status_url ""),
        ground arith,
        ground (arith, eq_iff cfg.license_status_token ""),
      )

  -- Settings that pass the validation are fit for production wherever they say that they are for
  -- it.
  pub validate-IsProductionReady :
      (cfg : Config) → validate cfg ≡ ok tt → cfg.environment ≡ "production" → IsProductionReady cfg
  unfolding validate validate_production validate_strict
  validate-IsProductionReady cfg h production =
      let (_, h₁) = >>-eq-ok (validate_identity cfg) _ h in
      let (_, h₂) = >>-eq-ok (validate_names cfg) _ h₁ in
      let (endpoints, h₃) =
        >>-eq-ok (validate_endpoints (cfg.upstream_url ∷ cfg.jwks_url ∷ cfg.issuer ∷ [])) _ h₂ in
      let (licence, h₄) = >>-eq-ok (validate_licence cfg) _ h₃ in
      let strict : validate_strict cfg ≡ ok tt =
        ground (arith, (eq_iff cfg.environment "production").1 production, h₄) in
      let (required, h₅) =
        refuse_if-ok (not cfg.require_entitlement) entitlement_optional _ strict in
      let soon = refuse_if-passed _ license_status_ttl_too_long h₅ in
      let enforced : cfg.require_entitlement ≡ true = ground arith in
      let (url, absolute, token) = licence-ok cfg licence enforced in
      let (upstream, jwks, _) = endpoints-ok cfg.upstream_url cfg.jwks_url cfg.issuer endpoints in
      record {
        enforced = enforced;
        service_named = url;
        service_absolute = absolute;
        service_token = token;
        checked_often = ground arith;
        keys_absolute = jwks;
        upstream_absolute = upstream;
      }
