-- ===== src/License/Json.antt =====
-- verifier.go of the control service: `canonicalizeValue`, `canonicalizeJSON` and `join`. A decoded
-- JSON document is a value of `Json`, an object the list of its members with each key once;
-- `marshal_text` stands for `json.Marshal` of a text.
use agent_enterprise_protoco.Common.{
  String, Bool, true, false, Option, none, some, List, [], ◌∷◌, map, if◌then◌else◌, ◌==◌, nat_eq,
  string_eq, sort_by,
}
use agent_enterprise_protoco.Common.Options.{◌>>=◌}
use agent_enterprise_protoco.Common.Text.{append, str_lt}

mutual
  pub data Json : Type 0 where
    null : Json
    text : String → Json
    boolean : Bool → Json
    number : String → Json
    array : Items → Json
    object : Members → Json

  pub data Items : Type 0 where
    no_items : Items
    item : Json → Items → Items

  pub data Members : Type 0 where
    no_members : Members
    member : String → Json → Members → Members

-- The loop of the code joins from the left; the parts are the same.
unfoldable pub join : List String → String
join [] = ""
join (value ∷ []) = value
join (value ∷ next ∷ values) = append value (append "," (join (next ∷ values)))

module _ (marshal_text : String → String) where
  abbrev render_member : String × String → String
  render_member (key, part) = append (marshal_text key) (append ":" part)

  abbrev render_object : List (String × String) → String
  render_object parts =
      append "{" (append (join (map render_member (sort_by (λ p q. str_lt p.0 q.0) parts))) "}")

  unfoldable mutual
    pub canonicalize_value : Json → Option String
    canonicalize_value null = some "null"
    canonicalize_value (text s) = some (marshal_text s)
    canonicalize_value (boolean true) = some "true"
    canonicalize_value (boolean false) = some "false"
    canonicalize_value (number n) = if n == "" then none else some n
    canonicalize_value (array items) = do
      parts ← canonicalize_items items
      some (append "[" (append (join parts) "]"))
    canonicalize_value (object members) = do
      parts ← canonicalize_members members
      some (render_object parts)

    pub canonicalize_items : Items → Option (List String)
    canonicalize_items no_items = some []
    canonicalize_items (item value items) = do
      part ← canonicalize_value value
      parts ← canonicalize_items items
      some (part ∷ parts)

    pub canonicalize_members : Members → Option (List (String × String))
    canonicalize_members no_members = some []
    canonicalize_members (member key value members) = do
      part ← canonicalize_value value
      parts ← canonicalize_members members
      some ((key, part) ∷ parts)
