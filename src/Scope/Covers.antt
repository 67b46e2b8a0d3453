-- ===== src/Scope/Covers.antt =====
-- Which teams a scope covers: those below one of its roots.
use agent_enterprise_protoco.Common.{
  String, ◌≡◌, ◌≢◌, ◌↔◌, ◌⊎◌, inl, inr, true, some, List, [], ◌∷◌, ◌++◌, arith, eq_iff, or_elim,
  or_inl, or_inr, ◌==◌, nat_eq, string_eq, contains, contains-append,
}
use agent_enterprise_protoco.Common.Options.{>>=-eq-some}
use agent_enterprise_protoco.Scope.Teams.{
  TeamNode, unique_sorted, subtree_ids, contains-unique_sorted,
}
use agent_enterprise_protoco.Scope.Forest.{Descends}
use agent_enterprise_protoco.Scope.Ends.{subtree_ids_mem}
use agent_enterprise_protoco.Scope.Context.{subtrees, expand}

-- `x` is a team below one of `roots`.
abbrev pub Below : List TeamNode → List String → String → Type 0
Below teams roots x = (root : String) × (contains roots root ≡ true) × Descends teams root x

module _ (teams : List TeamNode) (root : String) (roots : List String) (x : String) where
  Below-head : Descends teams root x → Below teams (root ∷ roots) x
  unfolding contains
  Below-head d = (root, ground (arith, eq_iff root root), d)

  Below-tail : Below teams roots x → Below teams (root ∷ roots) x
  unfolding contains
  Below-tail (r, m, d) = (r, ground arith, d)

  Below-cons : Below teams (root ∷ roots) x → Descends teams root x ⊎ Below teams roots x
  unfolding contains
  Below-cons (r, m, d) = elim (or_elim (root == r) (contains roots r) m) [
    | inl e ↦ inl (rw ((eq_iff root r).0 e) d)
    | inr k ↦ inr (r, k, d)
  ]

no_roots : {B : Type 0} (teams : List TeamNode) (x : String) → Below teams [] x → B
unfolding contains
no_roots teams x (r, m, d) = cc

-- Membership in a list, as "not the empty text, and `A`".
abbrev pub Holds : List String → String → Type 0 → Type 0
Holds xs x A = (contains xs x ≡ true) ↔ ((x ≢ "") × A)

module _ (x : String) (A B : Type 0) where
  Holds-append : (xs ys : List String) → Holds xs x A → Holds ys x B → Holds (xs ++ ys) x (A ⊎ B)
  Holds-append xs ys h k = (to, from)
    where
      to : contains (xs ++ ys) x ≡ true → (x ≢ "") × (A ⊎ B)
      to m = elim (or_elim (contains xs x) (contains ys x) (rw (contains-append xs ys x) at m)) [
        | inl l ↦ ((h.0 l).0, inl (h.0 l).1)
        | inr r ↦ ((k.0 r).0, inr (k.0 r).1)
      ]

      from : (x ≢ "") × (A ⊎ B) → contains (xs ++ ys) x ≡ true
      from (ne, inl a) = rw (contains-append xs ys x) (or_inl _ _ (h.1 (ne, a)))
      from (ne, inr b) = rw (contains-append xs ys x) (or_inr _ _ (k.1 (ne, b)))

  pub Holds_map : (xs : List String) → (A → B) → (B → A) → Holds xs x A → Holds xs x B
  Holds_map xs f g h = (λ m. ((h.0 m).0, f (h.0 m).1), λ p. h.1 (p.0, g p.1))

pub Holds-unique_sorted :
    (x : String) (A : Type 0) (xs : List String) → Holds xs x A → Holds (unique_sorted xs) x A
Holds-unique_sorted x A xs h = (
  λ m. h.0 (ground (arith, contains-unique_sorted xs x)),
  λ p. let m = h.1 p in let ne = p.0 in ground (arith, contains-unique_sorted xs x, eq_iff x ""),
)

pub subtrees_mem :
    (teams : List TeamNode) (roots found : List String) (x : String)
    → subtrees roots teams ≡ some found
    → Holds found x (Below teams roots x)
unfolding subtrees
subtrees_mem teams [] found x e =
    let none_found : [] ≡ found = cc in
    rw (← none_found) (λ m. unfold contains in cc, λ p. no_roots teams x p.1)
subtrees_mem teams (root ∷ roots) found x e =
    let (ids, e₁, k₁) = >>=-eq-some (subtree_ids root teams) _ e in
    let (more, e₂, k₂) = >>=-eq-some (subtrees roots teams) _ k₁ in
    let both : ids ++ more ≡ found = cc in
    rw (← both) (
      Holds_map x (Descends teams root x ⊎ Below teams roots x) (Below teams (root ∷ roots) x)
        (ids ++ more)
        (elim [ inl d ↦ Below-head teams root roots x d | inr b ↦ Below-tail teams root roots x b ])
        (Below-cons teams root roots x)
        (Holds-append x (Descends teams root x) (Below teams roots x) ids more
          (subtree_ids_mem teams root ids x e₁) (subtrees_mem teams roots more x e₂)))

pub expand_mem :
    (teams : List TeamNode) (A : Type 0) (org_scope roots out : List String) (x : String)
    → expand org_scope roots teams ≡ some out
    → Holds org_scope x A
    → Holds out x (A ⊎ Below teams roots x)
unfolding expand
expand_mem teams A org_scope [] out x e h =
    let same : org_scope ≡ out = cc in
    rw (← same) (
      Holds_map x A (A ⊎ Below teams [] x) org_scope inl
        (elim [ inl a ↦ a | inr b ↦ no_roots teams x b ]) h)
expand_mem teams A org_scope (root ∷ roots) out x e h =
    let (ids, e₁, k) = >>=-eq-some (subtree_ids root teams) _ e in
    Holds_map x ((A ⊎ Descends teams root x) ⊎ Below teams roots x)
      (A ⊎ Below teams (root ∷ roots) x) out
      (elim [
        | inl (inl a) ↦ inl a
        | inl (inr d) ↦ inr (Below-head teams root roots x d)
        | inr b ↦ inr (Below-tail teams root roots x b)
      ])
      (elim [ inl a ↦ inl (inl a) | inr b ↦ regroup (Below-cons teams root roots x b) ])
      (expand_mem teams (A ⊎ Descends teams root x) (unique_sorted (org_scope ++ ids)) roots out x k
        (Holds-unique_sorted x (A ⊎ Descends teams root x) (org_scope ++ ids) (
          Holds-append x A (Descends teams root x) org_scope ids h
            (subtree_ids_mem teams root ids x e₁))))
  where
    regroup :
        Descends teams root x ⊎ Below teams roots x
        → (A ⊎ Descends teams root x) ⊎ Below teams roots x
    regroup (inl d) = inl (inr d)
    regroup (inr b) = inr b
