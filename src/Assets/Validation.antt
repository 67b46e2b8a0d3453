-- ===== src/Assets/Validation.antt =====
-- assettypes/registry.go: which connection parameters of an SSH server are accepted.
use agent_enterprise_protoco.Common.{
  ℕ, ◌≤◌, String, ◌≡◌, ◌≢◌, ◌⊎◌, false, not, none, some, any, nat_eq, string_eq,
}
use Prim.Native.String.{len}
use agent_enterprise_protoco.Common.Int.{pos}
use agent_enterprise_protoco.Common.Maps.{lookup}
use agent_enterprise_protoco.Assets.Registry.{text, whole, Spec, contains_space, is_ssh_field}

abbrev pub IsText : String → Spec → String → Type 0
IsText field spec s = (lookup field spec ≡ some (text s)) × (s ≢ "")

-- What the documentation of the type asks for.
pub record IsSshServer (spec : Spec) : Type 0 where
  pub known : any (λ (field, _). not (is_ssh_field field)) spec ≡ false
  pub host : String
  pub host_given : IsText "host" spec host
  pub host_short : len host ≤ 253
  pub host_plain : contains_space host ≡ false
  pub port :
      (lookup "port" spec ≡ none)
      ⊎ ((n : ℕ) × (lookup "port" spec ≡ some (whole (pos n))) × (1 ≤ n) × (n ≤ 65535))
  pub username : String
  pub username_given : IsText "username" spec username
  pub username_short : len username ≤ 64
  pub method :
      (lookup "authMethod" spec ≡ some (text "password"))
      ⊎ (lookup "authMethod" spec ≡ some (text "private_key"))
