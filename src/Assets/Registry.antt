-- ===== src/Assets/Registry.antt =====
-- assettypes/registry.go: the types of assets, without the names and descriptions for people, and the
-- checks of their connection parameters. A JSON number is `whole` when it is an integer; the decoder
-- of JSON yields no other values than these.
use agent_enterprise_protoco.Common.{
  String, Bool, true, false, not, ◌&&◌, ◌||◌, Option, none, some, List, [], ◌∷◌, map, ltb,
  if◌then◌else◌, any, ◌==◌, nat_eq, string_eq, sort_by,
}
use agent_enterprise_protoco.Common.Results.{Result, err, refuse_if, ◌>>◌}
use Prim.Native.Char.{code}
use Prim.Native.String.{len}
use agent_enterprise_protoco.Common.{sort_by}
use agent_enterprise_protoco.Common.Int.{ℤ, is_below, is_above}
use agent_enterprise_protoco.Common.Maps.{lookup}
use agent_enterprise_protoco.Common.Text.{str_lt}

pub data Value : Type 0 where
  text : String → Value
  whole : ℤ → Value
  fraction : Value
  other : Value

abbrev pub Spec : Type 0
Spec = List (String × Value)

pub data SpecError : Type 0 where
  missing_spec unknown_type unknown_field missing_host bad_host bad_port missing_username
        long_username bad_method :
      SpecError

pub record Capability : Type 0 where
  pub key : String
  pub kind : String
  pub risk : String
  pub level : String
  pub connector : String

pub record Definition : Type 0 where
  pub id : String
  pub category : String
  pub requires_credential : Bool
  pub capabilities : List Capability
  pub validate_spec : Spec → Result SpecError (Unit {0})

unfoldable pub contains_space : String → Bool
contains_space String.[] = false
contains_space (String.◌∷◌ c s) =
    let rest = contains_space s in
    if code c == b' ' || code c == 9 || code c == 10 || code c == 13 then true else rest

unfoldable pub is_ssh_field : String → Bool
is_ssh_field f = f == "host" || f == "port" || f == "username" || f == "authMethod"

-- `spec[name].(string)`, empty where it is absent or no text.
unfoldable pub text_of : Option Value → String
text_of (some (text s)) = s
text_of _ = ""

unfoldable pub is_bad_port : Option Value → Bool
is_bad_port none = false
is_bad_port (some (whole n)) = is_below n 1 || is_above n 65535
is_bad_port (some _) = true

unfoldable pub validate_ssh_server_spec : Spec → Result SpecError (Unit {0})
validate_ssh_server_spec spec =
    let host = text_of (lookup "host" spec) in
    let username = text_of (lookup "username" spec) in
    let method = text_of (lookup "authMethod" spec) in
    refuse_if (any (λ (field, _). not (is_ssh_field field)) spec) unknown_field
    >> refuse_if (host == "") missing_host
    >> refuse_if (ltb 253 (len host) || contains_space host) bad_host
    >> refuse_if (is_bad_port (lookup "port" spec)) bad_port
    >> refuse_if (username == "") missing_username
    >> refuse_if (ltb 64 (len username)) long_username
    >> refuse_if (not (method == "password") && not (method == "private_key")) bad_method

abbrev pub ssh_capability : (key risk : String) → Capability
ssh_capability key risk = record {
  key = key;
  kind = "action";
  risk = risk;
  level = "L1";
  connector = "ssh";
}

unfoldable pub registry : List (String × Definition)
registry =
    (
      "ssh_server",
      record {
        id = "ssh_server";
        category = "device";
        requires_credential = true;
        capabilities =
            ssh_capability "exec" "medium"
            ∷ ssh_capability "sftp_read" "low"
            ∷ ssh_capability "sftp_write" "high"
            ∷ [];
        validate_spec = validate_ssh_server_spec;
      },
    )
    ∷ []

unfoldable pub get : String → Option Definition
get id = lookup id registry

unfoldable pub list_definitions : List Definition
list_definitions = sort_by (λ a b. str_lt a.id b.id) (map (λ (id, d). d) registry)

-- `none` is the nil map.
unfoldable pub validate_spec : (type_id : String) → Option Spec → Result SpecError (Unit {0})
validate_spec type_id none = err missing_spec
validate_spec type_id (some spec) = elim (get type_id) [
  | none ↦ err unknown_type
  | some d ↦ d.validate_spec spec
]

unfoldable pub has_capability : (type_id key : String) → Bool
has_capability type_id key = elim (get type_id) [
  | none ↦ false
  | some d ↦ any (λ c. c.key == key) d.capabilities
]
