-- ===== src/Scope/Decision.antt =====
-- What a retrieval context allows, said of the rules and the department tree alone.
use agent_enterprise_protoco.Common.{
  ℕ, String, ◌≡◌, refl, sym, ap, ◌∙◌, ◌≢◌, ◌↔◌, ◌⊎◌, inl, inr, Bool, true, false, not, ◌&&◌, ◌||◌,
  some, List, [], ◌∷◌, ◌++◌, arith, eq_iff, any, ◌==◌, nat_eq, string_eq, contains, contains-append,
}
use mathlib.Core.Path.{subst}
use agent_enterprise_protoco.Common.Options.{>>=-eq-some, >>=-some, some_inj}
use agent_enterprise_protoco.Scope.Teams.{TeamNode, unique_sorted}
use agent_enterprise_protoco.Scope.Forest.{Descends}
use agent_enterprise_protoco.Scope.Ends.{IsForest, subtree_ids_exact}
use agent_enterprise_protoco.Scope.Covers.{
  Below, Holds, Holds_map, subtrees_mem, expand_mem, Holds-unique_sorted,
}
use agent_enterprise_protoco.Scope.Rules.{
  ScopeRule, ScopeSubject, ResourceRef, ref_eq, is_active, ref_of, is_partial, unique_resource_refs,
  contains-unique_resource_refs,
}
use agent_enterprise_protoco.Scope.Context.{
  RetrievalContext, subtrees, Grants, is_grant, grant_step, collect_grants, expand, is_denial,
  collect_denials, build_retrieval_context, allows,
}

module _ (subject : ScopeSubject) (now : ℕ) where
  abbrev pub grants_team : String → ScopeRule → Bool
  grants_team team rule =
      is_grant rule
      && is_active rule subject now
      && rule.resource_kind == "team"
      && rule.resource_id == team

  abbrev pub grants_ref : ResourceRef → ScopeRule → Bool
  grants_ref r rule =
      is_grant rule
      && is_active rule subject now
      && not (rule.resource_kind == "team")
      && ref_of rule == r

  abbrev pub denies : ResourceRef → ScopeRule → Bool
  denies r rule = is_denial rule && is_active rule subject now && ref_of rule == r

  step_expansions :
      (g : Grants) (rule : ScopeRule) (x : String)
      → contains (grant_step subject now g rule).expansions x
        ≡ (contains g.expansions x || grants_team x rule)
  unfolding grant_step contains
  step_expansions g rule x = ground arith

  collect_expansions :
      (g : Grants) (rules : List ScopeRule) (x : String)
      → contains (collect_grants subject now g rules).expansions x
        ≡ (contains g.expansions x || any (grants_team x) rules)
  unfolding collect_grants
  collect_expansions g [] x = ground arith
  collect_expansions g (rule ∷ rules) x =
      ground (
        arith,
        step_expansions g rule x,
        collect_expansions (grant_step subject now g rule) rules x,
      )

  step_allowed :
      (g : Grants) (rule : ScopeRule) (r : ResourceRef)
      → contains (grant_step subject now g rule).allowed r
        ≡ (contains g.allowed r || grants_ref r rule)
  unfolding grant_step contains
  step_allowed g rule r = ground (arith, contains-append g.allowed (ref_of rule ∷ []) r)

  collect_allowed :
      (g : Grants) (rules : List ScopeRule) (r : ResourceRef)
      → contains (collect_grants subject now g rules).allowed r
        ≡ (contains g.allowed r || any (grants_ref r) rules)
  unfolding collect_grants
  collect_allowed g [] r = ground arith
  collect_allowed g (rule ∷ rules) r =
      ground (arith, step_allowed g rule r, collect_allowed (grant_step subject now g rule) rules r)

  collect_denied :
      (rules : List ScopeRule) (r : ResourceRef)
      → contains (collect_denials subject now rules) r ≡ any (denies r) rules
  unfolding collect_denials contains
  collect_denied [] r = refl
  collect_denied (rule ∷ rules) r = ground (arith, collect_denied rules r)

abbrev no_grants : Grants
no_grants = record { expansions = []; allowed = []; reason = "" }

-- The team `x` is reached: from a team of the user's own, or by a rule that grants a team above it.
abbrev pub Reached : List TeamNode → ScopeSubject → ℕ → List ScopeRule → String → Type 0
Reached teams subject now rules x =
    Below teams subject.team_ids x
    ⊎ ((root : String) × (any (grants_team subject now root) rules ≡ true) × Descends teams root x)

module _ (subject : ScopeSubject) (now : ℕ) (rules : List ScopeRule) where
  abbrev gathered : Grants
  gathered = collect_grants subject now no_grants rules

  expansions_eq :
      (root : String) → contains gathered.expansions root ≡ any (grants_team subject now root) rules
  unfolding contains
  expansions_eq root = collect_expansions subject now no_grants rules root

  allowed_eq :
      (r : ResourceRef)
      → contains (unique_resource_refs gathered.allowed) r
        ≡ (not (is_partial r) && any (grants_ref subject now r) rules)
  unfolding contains
  allowed_eq r =
      rw (contains-unique_resource_refs gathered.allowed r)
        (rw (collect_allowed subject now no_grants rules r))

  denied_eq :
      (r : ResourceRef)
      → contains (unique_resource_refs (collect_denials subject now rules)) r
        ≡ (not (is_partial r) && any (denies subject now r) rules)
  denied_eq r =
      rw (contains-unique_resource_refs (collect_denials subject now rules) r)
        (rw (collect_denied subject now rules r))

  Reached-scope :
      (teams : List TeamNode) (org_scope out : List String) (x : String)
      → subtrees subject.team_ids teams ≡ some org_scope
      → expand (unique_sorted org_scope) gathered.expansions teams ≡ some out
      → Holds out x (Reached teams subject now rules x)
  Reached-scope teams org_scope out x e₁ e₂ =
      Holds_map x (Below teams subject.team_ids x ⊎ Below teams gathered.expansions x)
        (Reached teams subject now rules x) out
        (elim [ inl own ↦ inl own | inr (root, m, d) ↦ inr (root, rw (← expansions_eq root) m, d) ])
        (elim [ inl own ↦ inl own | inr (root, m, d) ↦ inr (root, rw (expansions_eq root) m, d) ])
        (expand_mem teams (Below teams subject.team_ids x) (unique_sorted org_scope)
          gathered.expansions out x e₂
          (Holds-unique_sorted x (Below teams subject.team_ids x) org_scope
            (subtrees_mem teams subject.team_ids org_scope x e₁)))

-- The specification of a decision, with no lists built and nothing sorted.
pub record IsAuthorized (teams : List TeamNode) (subject : ScopeSubject) (now : ℕ)
    (rules : List ScopeRule) (r : ResourceRef) : Type 0 where
  pub whole : is_partial r ≡ false
  pub not_denied : any (denies subject now r) rules ≡ false
  pub granted :
      ((r.kind ≡ "team") × Reached teams subject now rules r.id)
      ⊎ (any (grants_ref subject now r) rules ≡ true)

module _ (c : RetrievalContext) (r : ResourceRef) where
  abbrev Allowance : Type 0
  Allowance =
      (((r.kind == "team") ≡ true) × (contains c.org_scope r.id ≡ true))
      ⊎ (contains c.allowed_resources r ≡ true)

  allows_cases : allows c r ≡ true → (contains c.denied_resources r ≡ false) × Allowance
  unfolding allows
  allows_cases h = ground arith

  allows_intro : contains c.denied_resources r ≡ false → Allowance → allows c r ≡ true
  unfolding allows
  allows_intro d a = ground arith

  module _ (denied granted : Bool) (A : Type 0)
      (d : contains c.denied_resources r ≡ (not (is_partial r) && denied))
      (a : contains c.allowed_resources r ≡ (not (is_partial r) && granted))
      (o : Holds c.org_scope r.id A) where
    abbrev Verdict : Type 0
    Verdict =
        (is_partial r ≡ false) × (denied ≡ false) × (((r.kind ≡ "team") × A) ⊎ (granted ≡ true))

    whole_team : (r.kind == "team") ≡ true → r.id ≢ "" → is_partial r ≡ false
    whole_team k ne =
        ground (arith, eq_iff r.kind "team", eq_iff r.kind "", eq_iff r.id "", eq_iff "team" "")

    allows_verdict : allows c r ≡ true → Verdict
    allows_verdict h = elim (allows_cases h).1 [
      | inl (k, m) ↦
          let whole = whole_team k (o.0 m).0 in
          let clear = (allows_cases h).0 in
          (whole, ground arith, inl ((eq_iff r.kind "team").0 k, (o.0 m).1))
      | inr m ↦ let clear = (allows_cases h).0 in (ground arith, ground arith, inr (ground arith))
    ]

    verdict_allows : Verdict → allows c r ≡ true
    verdict_allows (whole, clear, inl (k, below)) =
        allows_intro (ground arith)
          (inl ((eq_iff r.kind "team").1 k, o.1 (ground (arith, eq_iff r.id ""), below)))
    verdict_allows (whole, clear, inr g) = allows_intro (ground arith) (inr (ground arith))

-- What the built context allows is what the rules and the department tree authorise: an explicit
-- denial beats every grant; without one a team is allowed below a team of the user's own or below a
-- granted one, and any other resource by a rule that grants it; nothing else is allowed.
pub allows-IsAuthorized :
    (deployment_id user_id : String) (roles own_teams : List String) (teams : List TeamNode)
    (rules : List ScopeRule) (now : ℕ) (c : RetrievalContext) (r : ResourceRef)
    → build_retrieval_context deployment_id user_id roles own_teams teams rules now ≡ some c
    → (allows c r ≡ true)
      ↔ IsAuthorized teams
          (record { user_id = user_id; role_ids = roles; team_ids = own_teams })
          now
          rules
          r
unfolding build_retrieval_context
allows-IsAuthorized deployment_id user_id roles own_teams teams rules now c r e =
    let subject : ScopeSubject = record {
      user_id = user_id;
      role_ids = roles;
      team_ids = own_teams;
    } in
    let (org, e₁, k₁) = >>=-eq-some (subtrees own_teams teams) _ e in
    let (out, e₂, k₂) =
      >>=-eq-some (expand (unique_sorted org) (gathered subject now rules).expansions teams) _ k₁ in
    let q = some_inj k₂ in
    let d = ap (λ x. contains x.denied_resources r) (sym q) ∙ denied_eq subject now rules r in
    let a = ap (λ x. contains x.allowed_resources r) (sym q) ∙ allowed_eq subject now rules r in
    let o : Holds c.org_scope r.id (Reached teams subject now rules r.id) =
      subst (λ x. Holds x.org_scope r.id (Reached teams subject now rules r.id)) q
        (Reached-scope subject now rules teams org out r.id e₁ e₂) in
    (
      λ h.
          let (whole, clear, granted) = allows_verdict c r _ _ _ d a o h in
          record { whole = whole; not_denied = clear; granted = granted },
      λ h. verdict_allows c r _ _ _ d a o (h.whole, h.not_denied, h.granted),
    )

subtrees_end :
    (teams : List TeamNode) (roots : List String)
    → IsForest teams
    → (found : List String) × (subtrees roots teams ≡ some found)
unfolding subtrees
subtrees_end teams [] h = ([], refl)
subtrees_end teams (root ∷ roots) h =
    let (ids, e, _) = subtree_ids_exact teams root h in
    let (more, k) = subtrees_end teams roots h in (ids ++ more, rw (e, k))

expand_ends :
    (teams : List TeamNode) (org_scope roots : List String)
    → IsForest teams
    → (out : List String) × (expand org_scope roots teams ≡ some out)
unfolding expand
expand_ends teams org_scope [] h = (org_scope, refl)
expand_ends teams org_scope (root ∷ roots) h =
    let (ids, e, _) = subtree_ids_exact teams root h in
    let (out, k) = expand_ends teams (unique_sorted (org_scope ++ ids)) roots h in (out, rw e k)

-- A deployment whose departments form a forest always gets a context.
pub build_retrieval_context_total :
    (deployment_id user_id : String) (roles own_teams : List String) (teams : List TeamNode)
    (rules : List ScopeRule) (now : ℕ)
    → IsForest teams
    → (c : RetrievalContext) × (build_retrieval_context deployment_id user_id roles own_teams teams
          rules now
        ≡ some c)
unfolding build_retrieval_context
build_retrieval_context_total deployment_id user_id roles own_teams teams rules now h =
    let subject : ScopeSubject = record {
      user_id = user_id;
      role_ids = roles;
      team_ids = own_teams;
    } in
    let (org, e) = subtrees_end teams own_teams h in
    let (out, k) =
      expand_ends teams (unique_sorted org) (gathered subject now rules).expansions h in
    (_, >>=-some _ e (>>=-some _ k refl))
