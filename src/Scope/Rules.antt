-- ===== src/Scope/Rules.antt =====
-- datascope.go, the rules: `ScopeRule`, `ScopeSubject`, `ResourceRef`, `ruleApplies`,
-- `ruleInWindow` and `uniqueResourceRefs`. Instants are natural numbers.
use agent_enterprise_protoco.Common.{
  ℕ, String, ◌≡◌, ◌↔◌, Bool, true, false, not, ◌&&◌, ◌||◌, Option, none, some, List, [], arith,
  eq_iff, ltb, if◌then◌else◌, Eq, ◌==◌, nat_eq, string_eq, contains, sort_by, unique_from,
  contains-sort_by, contains-unique_from,
}
use agent_enterprise_protoco.Common.Text.{str_lt}

pub record ScopeRule : Type 0 where
  pub id : String
  pub rule_kind : String
  pub subject_type : String
  pub subject_id : String
  pub resource_kind : String
  pub resource_id : String
  pub starts_at : Option ℕ
  pub expires_at : Option ℕ

pub record ScopeSubject : Type 0 where
  pub user_id : String
  pub role_ids : List String
  pub team_ids : List String

pub record ResourceRef : Type 0 where
  pub kind : String
  pub id : String

abbrev pub ref_beq : ResourceRef → ResourceRef → Bool
ref_beq a b = a.kind == b.kind && a.id == b.id

pub ref_beq_iff : (a b : ResourceRef) → (ref_beq a b ≡ true) ↔ (a ≡ b)
ref_beq_iff a b = (
  λ h. (ground (arith, eq_iff a.kind b.kind, eq_iff a.id b.id)),
  λ h. ground (arith, eq_iff a.kind b.kind, eq_iff a.id b.id),
)

instance abbrev pub ref_eq : Eq ResourceRef
ref_eq = record { beq = ref_beq; beq_iff = ref_beq_iff }

unfoldable pub rule_applies : ScopeRule → ScopeSubject → Bool
unfolding contains
rule_applies rule subject =
    if rule.subject_type == "user"
    then rule.subject_id == subject.user_id
    else if rule.subject_type == "role"
    then contains subject.role_ids rule.subject_id
    else if rule.subject_type == "team"
    then contains subject.team_ids rule.subject_id
    else false

-- `now.Before(*rule.StartsAt)` and `!now.Before(*rule.ExpiresAt)` with their nil tests.
unfoldable pub not_started : Option ℕ → ℕ → Bool
not_started none now = false
not_started (some starts_at) now = ltb now starts_at

unfoldable pub has_expired : Option ℕ → ℕ → Bool
has_expired none now = false
has_expired (some expires_at) now = not (ltb now expires_at)

unfoldable pub rule_in_window : ScopeRule → ℕ → Bool
unfolding not_started has_expired
rule_in_window rule now =
    if not_started rule.starts_at now
    then false
    else if has_expired rule.expires_at now
    then false
    else true

-- A grant or a denial counts only for its subject and within its window.
unfoldable pub is_active : ScopeRule → ScopeSubject → ℕ → Bool
unfolding rule_applies rule_in_window
is_active rule subject now = rule_applies rule subject && rule_in_window rule now

unfoldable pub ref_of : ScopeRule → ResourceRef
ref_of rule = record { kind = rule.resource_kind; id = rule.resource_id }

abbrev pub ref_lt : ResourceRef → ResourceRef → Bool
ref_lt a b = if a.kind == b.kind then str_lt a.id b.id else str_lt a.kind b.kind

abbrev pub is_partial : ResourceRef → Bool
is_partial value = value.kind == "" || value.id == ""

unfoldable pub unique_resource_refs : List ResourceRef → List ResourceRef
unique_resource_refs values = sort_by ref_lt (unique_from is_partial [] values)

pub contains-unique_resource_refs :
    (values : List ResourceRef) (r : ResourceRef)
    → contains (unique_resource_refs values) r ≡ (not (is_partial r) && contains values r)
unfolding unique_resource_refs contains
contains-unique_resource_refs values r = ground (
  arith,
  contains-sort_by ref_lt (unique_from is_partial [] values) r,
  contains-unique_from is_partial [] values r,
)
