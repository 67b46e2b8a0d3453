-- ===== src/Scope/Examples.antt =====
-- A small company, evaluated: tests and instances of the properties of the data scope.
use agent_enterprise_protoco.Common.{
  ℕ, String, ◌≡◌, refl, ◌≢◌, ◌↔◌, Bool, true, false, not, Option, none, some, List, [], ◌∷◌, map,
  arith, eq_iff, filter, ◌==◌, nat_eq, string_eq, contains, sort_by, unique_from,
}
use agent_enterprise_protoco.Scope.Teams.{TeamNode, children, walk, subtree_ids, unique_sorted}
use agent_enterprise_protoco.Scope.Forest.{Descends}
use agent_enterprise_protoco.Scope.Ends.{IsForest, subtree_ids_exact, cycle_never_ends}
use agent_enterprise_protoco.Scope.Creation.{
  Team, create_team, node_of, Created, empty, create, Created-subtree_ids,
}
use agent_enterprise_protoco.Scope.Rules.{ScopeRule, unique_resource_refs}
use agent_enterprise_protoco.Scope.Context.{
  RetrievalContext, subtrees, collect_grants, expand, collect_denials, build_retrieval_context,
  allows,
}
use agent_enterprise_protoco.Scope.Decision.{
  IsAuthorized, allows-IsAuthorized, build_retrieval_context_total,
}

abbrev node : String → String → TeamNode
node id parent = record { id = id; parent = parent; path = "/" }

-- Newest first.
abbrev company : List TeamNode
company = node "ai" "tech" ∷ node "sales" "root" ∷ node "tech" "root" ∷ node "root" "" ∷ []

abbrev rule : String → String → String → ScopeRule
rule kind resource_kind resource_id = record {
  id = "r";
  rule_kind = kind;
  subject_type = "role";
  subject_id = "lead";
  resource_kind = resource_kind;
  resource_id = resource_id;
  starts_at = none;
  expires_at = some 50;
}

abbrev rules : List ScopeRule
rules =
    rule "management_scope" "team" "tech"
    ∷ rule "exception_grant" "doc" "plan"
    ∷ rule "explicit_deny" "team" "ai"
    ∷ []

abbrev built : Option RetrievalContext
built = build_retrieval_context "d" "ann" ("lead" ∷ []) ("sales" ∷ []) company rules 10

run : Unit {0}
unfolding build_retrieval_context subtrees collect_grants expand collect_denials
    unique_resource_refs unique_sorted subtree_ids sort_by unique_from contains allows
run = tt

abbrev ask : String → String → Option Bool
ask kind id = elim built [
  | none ↦ none
  | some c ↦ some (allows c (record { kind = kind; id = id }))
]

decisions :
    (ask "team" "tech" ≡ some true)
    × (ask "team" "sales" ≡ some true)
    × (ask "team" "ai" ≡ some false)
    × (ask "team" "root" ≡ some false)
    × (ask "doc" "plan" ≡ some true)
    × (ask "doc" "else" ≡ some false)
unfolding run
decisions = (refl, refl, refl, refl, refl, refl)

abbrev context : RetrievalContext
context = record {
  principal_id = "ann";
  deployment_id = "d";
  org_scope = "ai" ∷ "sales" ∷ "tech" ∷ [];
  own_team_ids = "sales" ∷ [];
  role_scope = "lead" ∷ [];
  allowed_resources = record { kind = "doc"; id = "plan" } ∷ [];
  denied_resources = record { kind = "team"; id = "ai" } ∷ [];
  cross_department_reason = "management_scope";
}

built-context : built ≡ some context
unfolding run
built-context = refl

company-IsForest : IsForest company
unfolding children
company-IsForest = (refl, (refl, (refl, (refl, tt))))

allows-IsAuthorized_example :
    (allows context (record { kind = "team"; id = "ai" }) ≡ true)
    ↔ IsAuthorized company
        (record { user_id = "ann"; role_ids = "lead" ∷ []; team_ids = "sales" ∷ [] })
        10
        rules
        (record { kind = "team"; id = "ai" })
allows-IsAuthorized_example =
    allows-IsAuthorized "d" "ann" ("lead" ∷ []) ("sales" ∷ []) company rules 10 context
      (record { kind = "team"; id = "ai" }) built-context

build_retrieval_context_total_test :
    (c : RetrievalContext) × (build_retrieval_context "d" "ann"
        ("lead" ∷ [])
        ("sales" ∷ [])
        company
        rules
        10
      ≡ some c)
build_retrieval_context_total_test =
    build_retrieval_context_total "d" "ann" ("lead" ∷ []) ("sales" ∷ []) company rules 10
      company-IsForest

subtree_ids_exact_example :
    (ids : List String) × (subtree_ids "tech" company ≡ some ids)
    × ((x : String) → (contains ids x ≡ true) ↔ ((x ≢ "") × Descends company "tech" x))
subtree_ids_exact_example = subtree_ids_exact company "tech" company-IsForest

abbrev looped : List TeamNode
looped = node "a" "a" ∷ []

cycle_never_ends_test : walk looped 7 [] ("a" ∷ []) ≡ none
unfolding children contains
cycle_never_ends_test = cycle_never_ends looped 7 [] ("a" ∷ []) "a" refl refl

abbrev row : String → Option String → String → ℕ → Team
row id parent path depth = record { id = id; parent_team_id = parent; path = path; depth = depth }

abbrev one : List Team
one = row "root" none "/root" 0 ∷ []

abbrev two : List Team
two = row "tech" (some "root") "/root/tech" 1 ∷ one

two-Created : Created two
unfolding create_team agent_enterprise_protoco.Common.Text.trim_space
two-Created =
    create (record { name = " Tech "; parent_id = "root" }) "tech"
      (create (record { name = "Root"; parent_id = "" }) "root" empty
        (λ e. ground (arith, eq_iff "root" "")) refl)
      (λ e. ground (arith, eq_iff "tech" "")) refl

Created-subtree_ids_example :
    let nodes = filter (λ t. not (t.id == "x")) (map node_of two) in
    (ids : List String) × (subtree_ids "root" nodes ≡ some ids)
    × ((x : String) → (contains ids x ≡ true) ↔ ((x ≢ "") × Descends nodes "root" x))
Created-subtree_ids_example = Created-subtree_ids two (λ t. not (t.id == "x")) "root" two-Created
