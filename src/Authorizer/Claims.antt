-- ===== src/Authorizer/Claims.antt =====
-- verifier.go, `ModelClaims` with the registered claims that the gateway reads. Instants are
-- natural numbers.
use agent_enterprise_protoco.Common.{ℕ, String, Option, List, nat_eq, string_eq}

pub record ModelClaims : Type 0 where
  pub deployment_id : String
  pub session_id : String
  pub license_id : String
  pub license_digest : String
  pub features : List String
  pub model_scopes : List String
  pub token_use : String
  pub issuer : String
  pub subject : String
  pub audience : List String
  pub expires_at : Option ℕ
  pub issued_at : Option ℕ

-- The errors of the package that callers tell apart, and all others.
pub data GatewayError : Type 0 where
  inactive unavailable : GatewayError
