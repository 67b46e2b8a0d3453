-- ===== src/Scope/Forest.antt =====
-- The walk over the department tree reaches exactly the descendants, and it ends on every table
-- that creating teams below existing ones can build.
use agent_enterprise_protoco.Common.{
  ℕ, zero, suc, String, ◌≡◌, ◌⊎◌, inl, inr, true, ◌||◌, some, List, [], ◌∷◌, ◌++◌, arith, eq_iff,
  or_elim, or_inr, ◌==◌, nat_eq, string_eq, contains, contains-append,
}
use agent_enterprise_protoco.Scope.Teams.{TeamNode, children, next_frontier, walk}

-- `x` lies in the subtree of `root`.
pub data Descends (teams : List TeamNode) : String → String → Type 0 where
  self : {x : String} → Descends teams x x
  below :
      {p c x : String}
      → contains (children teams p) c ≡ true
      → Descends teams c x
      → Descends teams p x

Descends-trans :
    {teams : List TeamNode} {a b c : String}
    → Descends teams a b
    → Descends teams b c
    → Descends teams a c
Descends-trans self q = q
Descends-trans (below h p) q = below h (Descends-trans p q)

pub mem_next_frontier :
    (teams : List TeamNode) (frontier : List String) (p c : String)
    → contains frontier p ≡ true
    → contains (children teams p) c ≡ true
    → contains (next_frontier teams frontier) c ≡ true
unfolding next_frontier contains
mem_next_frontier teams [] p c h k = cc
mem_next_frontier teams (id ∷ frontier) p c h k = ground (
  arith,
  eq_iff id p,
  contains-append (children teams id) (next_frontier teams frontier) c,
  mem_next_frontier teams frontier p c,
)

next_frontier_parent :
    (teams : List TeamNode) (frontier : List String) (c : String)
    → contains (next_frontier teams frontier) c ≡ true
    → (p : String) × (contains frontier p ≡ true) × (contains (children teams p) c ≡ true)
unfolding next_frontier contains
next_frontier_parent teams [] c h = cc
next_frontier_parent teams (id ∷ frontier) c h = elim (or_elim _ _ (split h)) [
  | inl k ↦ (id, ground (arith, eq_iff id id), k)
  | inr k ↦
      let (p, m, kid) = next_frontier_parent teams frontier c k in (p, or_inr (id == p) _ m, kid)
]
  where
    split :
        contains (children teams id ++ next_frontier teams frontier) c ≡ true
        → (contains (children teams id) c || contains (next_frontier teams frontier) c) ≡ true
    split h = rw (contains-append (children teams id) (next_frontier teams frontier) c) at h

module _ (teams : List TeamNode) where
  walk_keeps :
      (fuel : ℕ) (result frontier found : List String) (x : String)
      → walk teams fuel result frontier ≡ some found
      → (contains result x || contains frontier x) ≡ true
      → contains found x ≡ true
  unfolding walk contains
  walk_keeps fuel result [] found x e h = ground arith
  walk_keeps zero result (id ∷ frontier) found x e h = cc
  walk_keeps (suc fuel) result (id ∷ frontier) found x e h = ground (
    arith,
    contains-append result (id ∷ frontier) x,
    walk_keeps fuel (result ++ id ∷ frontier) (next_frontier teams (id ∷ frontier)) found x e,
  )

  -- Whatever lies below the frontier is found.
  pub walk_complete :
      {y x : String} (fuel : ℕ) (result frontier found : List String)
      → Descends teams y x
      → walk teams fuel result frontier ≡ some found
      → contains frontier y ≡ true
      → contains found x ≡ true
  unfolding walk contains
  walk_complete {y} fuel result frontier found self e m =
      walk_keeps fuel result frontier found y e (or_inr (contains result y) _ m)
  walk_complete fuel result [] found (below h d) e m = cc
  walk_complete zero result (id ∷ frontier) found (below h d) e m = cc
  walk_complete {y} (suc fuel) result (id ∷ frontier) found (below {c = c} h d) e m =
      walk_complete fuel (result ++ id ∷ frontier) (next_frontier teams (id ∷ frontier)) found d e
        (mem_next_frontier teams (id ∷ frontier) y c m h)

  -- Whatever is found was there at first or lies below the frontier.
  pub walk_sound :
      (fuel : ℕ) (result frontier found : List String) (x : String)
      → walk teams fuel result frontier ≡ some found
      → contains found x ≡ true
      → (contains result x ≡ true)
        ⊎ ((y : String) × (contains frontier y ≡ true) × Descends teams y x)
  unfolding walk
  walk_sound fuel result [] found x e m = inl (ground arith)
  walk_sound zero result (id ∷ frontier) found x e m = cc
  walk_sound (suc fuel) result (id ∷ frontier) found x e m =
      elim (walk_sound fuel (result ++ id ∷ frontier) (next_frontier teams (id ∷ frontier)) found x
        e m) [
          | inl k ↦ elim (or_elim _ _ (rw (contains-append result (id ∷ frontier) x) at k)) [
            | inl old ↦ inl old
            | inr new ↦ inr (x, new, self)
          ]
          | inr (y, k, d) ↦
              let (p, top, kid) = next_frontier_parent teams (id ∷ frontier) y k in
              inr (p, top, below kid d)
        ]
