-- ===== src/Policy/Scoped.antt =====
-- The scopes that `Configuration.Valid` leaves.
use agent_enterprise_protoco.Common.{
  String, ◌≡◌, refl, ◌≢◌, ◌⊎◌, inl, inr, true, false, Option, none, some, arith, eq_iff, ◌==◌,
  nat_eq, string_eq,
}
use agent_enterprise_protoco.Common.Text.{trim_space}
use agent_enterprise_protoco.Policy.Limits.{
  Configuration, valid, valid_scope, valid_scope_of_valid, is_bad_reference, is_nil, value_or_empty,
}

-- A model's limit names its model, a global one nothing.
abbrev pub Scoped : Configuration → Type 0
Scoped c =
    ((c.scope_type ≡ "model") × (value_or_empty c.scope_id ≢ ""))
    ⊎ ((c.scope_type ≡ "global") × (value_or_empty c.scope_id ≡ ""))
    ⊎ (c.scope_type ≡ "user")
    ⊎ (c.scope_type ≡ "team")
    ⊎ (c.scope_type ≡ "role")

empty_is_blank : (trim_space "" == "") ≡ true
unfolding trim_space
empty_is_blank = refl

reference_named :
    (id : Option String) → is_nil id ≡ false → is_bad_reference id ≡ false → value_or_empty id ≢ ""
unfolding is_bad_reference value_or_empty
reference_named none h k e = cc
reference_named (some id) h k e =
    let blank : (trim_space id == "") ≡ true = rw e empty_is_blank in ground arith

no_reference : (id : Option String) → is_nil id ≡ true → value_or_empty id ≡ ""
unfolding value_or_empty
no_reference none h = refl
no_reference (some id) h = cc

valid_scope_cases :
    (c : Configuration)
    → valid_scope c ≡ true
    → ((c.scope_type ≡ "model")
        × (is_nil c.scope_id ≡ false)
        × (is_bad_reference c.scope_id ≡ false))
      ⊎ ((c.scope_type ≡ "global") × (is_nil c.scope_id ≡ true))
      ⊎ (c.scope_type ≡ "user")
      ⊎ (c.scope_type ≡ "team")
      ⊎ (c.scope_type ≡ "role")
unfolding valid_scope
valid_scope_cases c h = ground (
  arith,
  eq_iff c.scope_type "model",
  eq_iff c.scope_type "global",
  eq_iff c.scope_type "user",
  eq_iff c.scope_type "team",
  eq_iff c.scope_type "role",
)

pub valid-Scoped : (c : Configuration) → valid c ≡ true → Scoped c
valid-Scoped c h = elim (valid_scope_cases c (valid_scope_of_valid c h)) [
  | inl (e, named, good) ↦ inl (e, reference_named c.scope_id named good)
  | inr (inl (e, blank)) ↦ inr (inl (e, no_reference c.scope_id blank))
  | inr (inr rest) ↦ inr (inr rest)
]
