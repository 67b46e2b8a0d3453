-- ===== src/Policy/Limits.antt =====
-- policy.go: `Configuration`, `ValidID`, `Valid`, `key`, `Header`, `subjectHeader` and `Headers`.
-- `encode` and `digest` stand for `base64.RawURLEncoding` of a text's bytes and for the hexadecimal
-- SHA-256 of them.
use agent_enterprise_protoco.Common.{
  ℕ, String, ◌≡◌, Bool, true, false, not, ◌&&◌, ◌||◌, Option, none, some, List, [], ◌∷◌, arith, ltb,
  leb, if◌then◌else◌, length, ◌==◌, nat_eq, string_eq,
}
use agent_enterprise_protoco.Common.Results.{Result, ok, err}
use Prim.Native.Char.{code}
use Prim.Native.String
use Prim.Native.String.{len}
use agent_enterprise_protoco.Common.Int.{ℤ, is_below, is_above}
use agent_enterprise_protoco.Common.Maps.{insert}
use agent_enterprise_protoco.Common.Text.{trim_space, append}

pub record Configuration : Type 0 where
  pub kind : String
  pub scope_type : String
  pub scope_id : Option String
  pub model_id : Option String
  pub maximum : ℤ
  pub interval : String
  pub enabled : Bool
  pub expected_version : ℤ

is_alphanumeric : ℕ → Bool
is_alphanumeric c = leb b'A' c && leb c b'Z' || leb b'a' c && leb c b'z' || leb b'0' c && leb c b'9'

is_id_character : ℕ → Bool
is_id_character c = is_alphanumeric c || c == b'.' || c == b'_' || c == b'-'

all_id_characters : String → Bool
all_id_characters String.[] = true
all_id_characters (String.◌∷◌ c s) = is_id_character (code c) && all_id_characters s

-- The pattern `^[A-Za-z0-9][A-Za-z0-9._-]{0,79}$`.
unfoldable pub valid_id : String → Bool
unfolding is_alphanumeric is_id_character all_id_characters
valid_id String.[] = false
valid_id (String.◌∷◌ c s) =
    is_alphanumeric (code c) && all_id_characters s && leb (String.count s) 79

-- A reference that is present must be neither blank nor longer than 256 bytes.
unfoldable pub is_bad_reference : Option String → Bool
is_bad_reference none = false
is_bad_reference (some id) = trim_space id == "" || ltb 256 (len id)

abbrev pub is_nil : Option String → Bool
is_nil none = true
is_nil (some _) = false

abbrev pub same_if_named : Option String → Option String → Bool
same_if_named none _ = true
same_if_named (some model) none = false
same_if_named (some model) (some scope) = model == scope

is_bad_amount : Configuration → Bool
is_bad_amount c =
    not (c.kind == "requests") && not (c.kind == "tokens")
    || is_below c.maximum 1
    || is_above c.maximum 1000000000000
    || is_below c.expected_version 0

is_bad_interval : Configuration → Bool
is_bad_interval c =
    not (c.interval == "second")
    && not (c.interval == "minute")
    && not (c.interval == "hour")
    && not (c.interval == "day")

-- The tests from `c.ScopeType == "global"` on.
unfoldable pub valid_scope : Configuration → Bool
valid_scope c =
    if c.scope_type == "global"
    then is_nil c.scope_id
    else if not (c.scope_type == "model")
        && not (c.scope_type == "user")
        && not (c.scope_type == "team")
        && not (c.scope_type == "role")
    then false
    else not (is_nil c.scope_id)
      && not (is_bad_reference c.scope_id)
      && (not (c.scope_type == "model") || same_if_named c.model_id c.scope_id)

unfoldable pub valid : Configuration → Bool
unfolding is_bad_amount is_bad_interval
valid c =
    if is_bad_amount c
    then false
    else if is_bad_interval c
    then false
    else if is_bad_reference c.model_id
    then false
    else valid_scope c

pub valid_scope_of_valid : (c : Configuration) → valid c ≡ true → valid_scope c ≡ true
unfolding valid
valid_scope_of_valid c h =
    last (is_bad_amount c) (is_bad_interval c) (is_bad_reference c.model_id) (valid_scope c) h
  where
    last :
        (a b d r : Bool)
        → (if a then false else if b then false else if d then false else r) ≡ true
        → r ≡ true
    last a b d r h = ground arith

-- `""` where the pointer is nil.
unfoldable pub value_or_empty : Option String → String
value_or_empty none = ""
value_or_empty (some value) = value

pub data PolicyError : Type 0 where
  too_many_memberships : PolicyError

module _ (encode : String → String) where
  unfoldable pub model_part : String → String
  model_part model = if not (model == "") then append "m." (encode model) else "all"

  unfoldable pub key : String → String → String → String
  key kind id model = append kind (append "." (append (encode id) (append "." (model_part model))))

module _ (encode digest : String → String) where
  unfoldable pub subject_header : String → String → String → String
  subject_header kind id model = append "x-aep-limit-" (digest (key encode kind id model))

  unfoldable pub header : Configuration → String
  header c =
      let model = value_or_empty c.model_id in
      let id = value_or_empty c.scope_id in
      if c.scope_type == "model"
      then subject_header "global" "" id
      else subject_header c.scope_type id model

  -- The closure `add`: a subject with no model and with the request's.
  unfoldable pub add : String → String → String → List (String × String) → List (String × String)
  add model kind id headers =
      insert (subject_header kind id model) "1" (insert (subject_header kind id "") "1" headers)

  unfoldable pub add_all :
      String → String → List String → List (String × String) → List (String × String)
  add_all model kind [] headers = headers
  add_all model kind (id ∷ ids) headers = add_all model kind ids (add model kind id headers)

  unfoldable pub collect_headers :
      (model user : String) (teams roles : List String) → List (String × String)
  collect_headers model user teams roles =
      add_all model "role" roles
        (add_all model "team" teams (add model "user" user (add model "global" "" [])))

  unfoldable pub headers :
      (model user : String) (teams roles : List String)
      → Result PolicyError (List (String × String))
  headers model user teams roles =
      let collected = collect_headers model user teams roles in
      if ltb 80 (length collected) then err too_many_memberships else ok collected
