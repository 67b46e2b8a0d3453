-- ===== src/Assets/Slug.antt =====
-- identifier_slug.go: `slugFor`, `uniqueIdentifier`, `generateIdentifier` and `identifierExists`. `lower` stands for `strings.ToLower`; what it
-- does to letters outside of ASCII is not relied on.
use agent_enterprise_protoco.Common.{
  ℕ, zero, suc, ◌+◌, String, Bool, true, false, ◌&&◌, ◌||◌, Option, none, some, ltb, leb,
  if◌then◌else◌, ◌==◌, nat_eq, string_eq,
}
use agent_enterprise_protoco.Common.Results.{Result, ok, err, ◌>>=◌}
use Prim.Native.Char.{Char, code}
use Prim.Native.String
use Prim.Native.String.{len}
use agent_enterprise_protoco.Common.Text.{append}
use agent_enterprise_protoco.Common.Decimal.{format_int}

unfoldable pub is_kept : ℕ → Bool
is_kept c = leb b'a' c && leb c b'z' || leb b'0' c && leb c b'9'

abbrev pub dash : Char
dash = String.char_at "-" 0

-- The loop over the characters, with `previousDash`; the text is what it writes.
unfoldable pub write_slug : Bool → String → String
write_slug previous_dash String.[] = ""
write_slug previous_dash (String.◌∷◌ c s) =
    let kept = String.◌∷◌ c (write_slug false s) in
    let dashed = write_slug true s in
    if is_kept (code c) then kept else if previous_dash then dashed else String.◌∷◌ dash dashed

unfoldable pub is_dash : Char → Bool
is_dash c = code c == b'-'

unfoldable pub trim_left_dashes : String → String
trim_left_dashes String.[] = ""
trim_left_dashes (String.◌∷◌ c s) =
    let rest = trim_left_dashes s in if is_dash c then rest else String.◌∷◌ c s

unfoldable pub cons_dashed : Char → String → String
cons_dashed c String.[] = if is_dash c then "" else String.◌∷◌ c ""
cons_dashed c (String.◌∷◌ d t) = String.◌∷◌ c (String.◌∷◌ d t)

unfoldable pub trim_right_dashes : String → String
trim_right_dashes String.[] = ""
trim_right_dashes (String.◌∷◌ c s) = cons_dashed c (trim_right_dashes s)

-- `strings.Trim(s, "-")`.
unfoldable pub trim_dashes : String → String
trim_dashes s = trim_right_dashes (trim_left_dashes s)

-- `s[:n]` on a text in which each character is one byte, as all that `write_slug` writes are.
unfoldable pub first_bytes : ℕ → String → String
first_bytes zero s = ""
first_bytes (suc n) String.[] = ""
first_bytes (suc n) (String.◌∷◌ c s) = String.◌∷◌ c (first_bytes n s)

unfoldable pub slug_for : (lower : String → String) → String → String
slug_for lower name =
    let slug = trim_dashes (write_slug true (lower name)) in
    if ltb 40 (String.count slug) then trim_dashes (first_bytes 40 slug) else slug

module _ {E : Type 0} (exists : String → Result E Bool) where
  -- The suffixes from `suffix` on, as many as there are rounds.
  unfoldable pub try_suffixes : (rounds suffix : ℕ) → String → Result E (Option String)
  try_suffixes zero suffix base = ok none
  try_suffixes (suc rounds) suffix base =
      let candidate = append base (append "-" (format_int suffix)) in
      exists candidate
      >>= (λ taken. if taken then try_suffixes rounds (suffix + 1) base else ok (some candidate))

  -- `tail` is the hexadecimal of four random bytes, or the error of reading them.
  unfoldable pub or_random : Result E String → String → Option String → Result E String
  or_random tail base none = tail >>= (λ t. ok (append base (append "-" t)))
  or_random tail base (some candidate) = ok candidate

  -- Suffixes 2 to 99.
  unfoldable pub unique_identifier :
      Result E String → (base fallback_kind : String) → Result E String
  unique_identifier tail slug fallback_kind =
      let base = if slug == "" then fallback_kind else slug in
      exists base
      >>= (λ taken. if taken then try_suffixes 98 2 base >>= or_random tail base else ok base)

pub data LookupError : Type 0 where
  not_found unavailable unknown_kind : LookupError

-- The store's queries by kind, of which the code only reads whether they find something.
pub record Lookups : Type 0 where
  pub get_skill : String → Result LookupError (Unit {0})
  pub has_model : String → Result LookupError Bool
  pub get_role : String → Result LookupError (Unit {0})
  pub get_team : String → Result LookupError (Unit {0})
  pub get_source : String → Result LookupError (Unit {0})
  pub get_rule : String → Result LookupError (Unit {0})

unfoldable pub found : Result LookupError (Unit {0}) → Result LookupError Bool
found (ok _) = ok true
found (err not_found) = ok false
found (err e) = err e

unfoldable pub identifier_exists : Lookups → (kind candidate : String) → Result LookupError Bool
identifier_exists s kind candidate =
    if kind == "skill"
    then found (s.get_skill candidate)
    else if kind == "model"
    then s.has_model candidate
    else if kind == "role"
    then found (s.get_role candidate)
    else if kind == "team"
    then found (s.get_team candidate)
    else if kind == "source"
    then found (s.get_source candidate)
    else if kind == "data-scope-rule"
    then found (s.get_rule candidate)
    else err unknown_kind

unfoldable pub generate_identifier :
    (lower : String → String)
    → Lookups
    → (tail : Result LookupError String) → (kind name : String) → Result LookupError String
generate_identifier lower s tail kind name =
    unique_identifier (identifier_exists s kind) tail (slug_for lower name) kind
