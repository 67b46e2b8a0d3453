-- ===== src/Authorizer/SettingsExamples.antt =====
-- Settings validated, evaluated: a test and an instance of their property.
use agent_enterprise_protoco.Common.{
  String, ◌≡◌, refl, true, false, Option, none, some, if◌then◌else◌, ◌==◌, nat_eq, string_eq,
  contains,
}
use agent_enterprise_protoco.Common.Results.{err}
use agent_enterprise_protoco.Authorizer.Settings.{
  Url, Config, missing_license_status, is_absolute, is_plain, validate_identity, validate_endpoints,
  validate_names, validate_licence, validate_strict, validate_production, validate,
  IsProductionReady, validate-IsProductionReady,
}

abbrev parse : String → Option Url
parse s =
    if s == ""
    then none
    else some
        (record { scheme = "https"; host = s; has_user = false; raw_query = ""; fragment = "" })

abbrev settings : Config
settings = record {
  environment = "production";
  log_format = "json";
  log_level = "info";
  upstream_url = "upstream";
  jwks_url = "keys";
  issuer = "issuer";
  require_entitlement = true;
  license_status_url = "licences";
  license_status_token = "token";
  license_status_ttl = 15000000000;
  identity_url = "identity";
}

run : Unit {0}
unfolding is_absolute is_plain validate_identity validate_endpoints validate_names validate_licence
    validate_strict validate_production validate contains
run = tt

without_token :
    validate parse (record settings { license_status_token = ""; identity_url = "" })
    ≡ err missing_license_status
unfolding run
without_token = refl

validate-IsProductionReady_example : IsProductionReady parse settings
unfolding run
validate-IsProductionReady_example = validate-IsProductionReady parse settings refl refl
