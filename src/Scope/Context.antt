-- ===== src/Scope/Context.antt =====
-- datascope.go: `RetrievalContext`, `BuildRetrievalContext` and `Allows`.
use agent_enterprise_protoco.Common.{
  ℕ, String, Bool, true, false, not, ◌&&◌, ◌||◌, Option, some, List, [], ◌∷◌, ◌++◌, if◌then◌else◌,
  ◌==◌, nat_eq, string_eq, contains,
}
use agent_enterprise_protoco.Common.Options.{◌>>=◌}
use agent_enterprise_protoco.Common.Text.{str_contains, append}
use agent_enterprise_protoco.Scope.Teams.{TeamNode, unique_sorted, subtree_ids}
use agent_enterprise_protoco.Scope.Rules.{
  ScopeRule, ScopeSubject, ResourceRef, ref_eq, is_active, ref_of, unique_resource_refs,
}

pub record RetrievalContext : Type 0 where
  pub principal_id : String
  pub deployment_id : String
  pub org_scope : List String
  pub own_team_ids : List String
  pub role_scope : List String
  pub allowed_resources : List ResourceRef
  pub denied_resources : List ResourceRef
  pub cross_department_reason : String

-- The loop `orgScope = append(orgScope, subtreeIDs(teamID, teams)...)`.
unfoldable pub subtrees : List String → List TeamNode → Option (List String)
subtrees [] teams = some []
subtrees (team_id ∷ team_ids) teams =
    let rest = subtrees team_ids teams in
    do ids ← subtree_ids team_id teams; more ← rest; some (ids ++ more)

-- What the first loop over the rules collects; `expansions` is the set of its keys.
pub record Grants : Type 0 where
  pub expansions : List String
  pub allowed : List ResourceRef
  pub reason : String

unfoldable pub add_reason : String → String → String
add_reason reason kind =
    if reason == "" || not (str_contains reason kind)
    then if reason == "" then kind else append reason (append "," kind)
    else reason

unfoldable pub is_grant : ScopeRule → Bool
is_grant rule = rule.rule_kind == "management_scope" || rule.rule_kind == "exception_grant"

-- One round of the first loop.
unfoldable pub grant_step : ScopeSubject → ℕ → Grants → ScopeRule → Grants
unfolding add_reason is_grant is_active ref_of
grant_step subject now g rule =
    if not (is_grant rule)
    then g
    else if not (is_active rule subject now)
    then g
    else if rule.resource_kind == "team"
    then record g {
      expansions = rule.resource_id ∷ g.expansions;
      reason = add_reason g.reason rule.rule_kind;
    }
    else record g { allowed = g.allowed ++ ref_of rule ∷ [] }

unfoldable pub collect_grants : ScopeSubject → ℕ → Grants → List ScopeRule → Grants
unfolding grant_step
collect_grants subject now g [] = g
collect_grants subject now g (rule ∷ rules) =
    collect_grants subject now (grant_step subject now g rule) rules

-- The second loop: the scope grows by the subtree of each expansion.
unfoldable pub expand : List String → List String → List TeamNode → Option (List String)
expand org_scope [] teams = some org_scope
expand org_scope (team_id ∷ expansions) teams = do
  ids ← subtree_ids team_id teams
  expand (unique_sorted (org_scope ++ ids)) expansions teams

unfoldable pub is_denial : ScopeRule → Bool
is_denial rule = rule.rule_kind == "explicit_deny"

-- The third loop.
unfoldable pub collect_denials : ScopeSubject → ℕ → List ScopeRule → List ResourceRef
unfolding is_denial is_active ref_of
collect_denials subject now [] = []
collect_denials subject now (rule ∷ rules) =
    let rest = collect_denials subject now rules in
    if not (is_denial rule) || not (is_active rule subject now) then rest else ref_of rule ∷ rest

-- `none` where the walk over the departments does not end.
unfoldable pub build_retrieval_context :
    (deployment_id user_id : String) (roles own_teams : List String) (teams : List TeamNode)
    (rules : List ScopeRule) (now : ℕ)
    → Option RetrievalContext
build_retrieval_context deployment_id user_id roles own_teams teams rules now = do
  let subject : ScopeSubject = record { user_id = user_id; role_ids = roles; team_ids = own_teams }
  let g = collect_grants subject now (record { expansions = []; allowed = []; reason = "" }) rules
  org_scope ← subtrees own_teams teams
  expanded ← expand (unique_sorted org_scope) g.expansions teams
  some (record {
    principal_id = user_id;
    deployment_id = deployment_id;
    org_scope = expanded;
    own_team_ids = unique_sorted own_teams;
    role_scope = unique_sorted roles;
    allowed_resources = unique_resource_refs g.allowed;
    denied_resources = unique_resource_refs (collect_denials subject now rules);
    cross_department_reason = g.reason;
  })

-- The decision for one resource.
unfoldable pub allows : RetrievalContext → ResourceRef → Bool
unfolding contains
allows c resource =
    if contains c.denied_resources resource
    then false
    else if resource.kind == "team" && contains c.org_scope resource.id
    then true
    else contains c.allowed_resources resource
