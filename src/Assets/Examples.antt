-- ===== src/Assets/Examples.antt =====
-- Names, identifiers and connection parameters, evaluated: tests and instances of the properties.
use agent_enterprise_protoco.Common.{
  String, ◌≡◌, refl, ◌⊎◌, Bool, true, false, ◌||◌, some, [], ◌∷◌, ◌==◌, nat_eq, string_eq,
}
use agent_enterprise_protoco.Common.Results.{Result, ok, err}
use agent_enterprise_protoco.Common.Int.{ℤ, pos}
use agent_enterprise_protoco.Common.Maps.{lookup}
use agent_enterprise_protoco.Common.Text.{to_lower, lower_char}
use agent_enterprise_protoco.Common.Decimal.{format_digits, format_int}
use agent_enterprise_protoco.Access.Snapshot.{is_model_id}
use agent_enterprise_protoco.Assets.Slug.{
  is_kept, write_slug, is_dash, trim_left_dashes, cons_dashed, trim_right_dashes, trim_dashes,
  first_bytes, slug_for, try_suffixes, or_random, unique_identifier, LookupError, found,
  identifier_exists, generate_identifier,
}
use agent_enterprise_protoco.Assets.Legal.{slug_for-legal}
use agent_enterprise_protoco.Assets.Unique.{IsUnique, unique_identifier-IsUnique}
use agent_enterprise_protoco.Assets.Registry.{
  text, whole, Spec, bad_port, contains_space, is_ssh_field, text_of, is_bad_port,
  validate_ssh_server_spec, registry, get, validate_spec, has_capability,
}

run : Unit {0}
unfolding to_lower lower_char is_kept write_slug is_dash trim_left_dashes cons_dashed
    trim_right_dashes trim_dashes first_bytes slug_for try_suffixes or_random unique_identifier
    found identifier_exists generate_identifier format_digits format_int contains_space is_ssh_field
    text_of is_bad_port validate_ssh_server_spec registry get validate_spec has_capability lookup
run = tt

slug_test :
    (Path String (slug_for to_lower "  Claude Opus 4.1 (EU)  ") "claude-opus-4-1-eu")
    × (Path String (slug_for to_lower "---") "")
    × (Path String
        (slug_for to_lower "aaaaaaaaaabbbbbbbbbbccccccccccddddddddd eeee")
        "aaaaaaaaaabbbbbbbbbbccccccccccddddddddd")
unfolding run
slug_test = (refl, refl, refl)

slug_for-legal_example :
    (slug_for to_lower "Claude Opus 4.1" ≡ "")
    ⊎ (is_model_id (slug_for to_lower "Claude Opus 4.1") ≡ true)
slug_for-legal_example = slug_for-legal to_lower "Claude Opus 4.1"

abbrev taken : String → Result LookupError Bool
taken id = ok (id == "opus" || id == "opus-2")

unique_test : unique_identifier taken (ok "0badcafe") "opus" "model" ≡ ok "opus-3"
unfolding run
unique_test = refl

unique_identifier-IsUnique_example : IsUnique taken (ok "0badcafe") "opus" "opus-3"
unfolding run
unique_identifier-IsUnique_example =
    unique_identifier-IsUnique taken (ok "0badcafe") "opus" "model" "opus-3" refl

abbrev server : ℤ → Spec
server port =
    ("host", text "10.0.0.7")
    ∷ ("port", whole port)
    ∷ ("username", text "ops")
    ∷ ("authMethod", text "password")
    ∷ []

validated_test :
    (validate_spec "ssh_server" (some (server (pos 22))) ≡ ok tt)
    × (validate_spec "ssh_server" (some (server (pos 65536))) ≡ err bad_port)
    × (has_capability "ssh_server" "sftp_read" ≡ true)
    × (has_capability "ssh_server" "reboot" ≡ false)
unfolding run
validated_test = (refl, refl, refl, refl)
