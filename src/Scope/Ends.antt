-- ===== src/Scope/Ends.antt =====
-- The walk of datascope.go ends on every forest, within the rounds given.
use agent_enterprise_protoco.Common.{
  ℕ, zero, suc, ◌≤◌, ◌<◌, String, ◌≡◌, refl, ◌≢◌, ◌↔◌, inl, inr, true, false, none, some, List, [],
  ◌∷◌, ◌++◌, arith, eq_iff, if◌then◌else◌, Bool-cases, length, all, All, All-append, All-map, ◌==◌,
  nat_eq, string_eq, contains,
}
use agent_enterprise_protoco.Common.Options.{>>=-eq-some}
use agent_enterprise_protoco.Scope.Teams.{
  TeamNode, unique_sorted, children, next_frontier, walk, subtree_ids, contains-unique_sorted,
}
use agent_enterprise_protoco.Scope.Forest.{Descends, walk_complete, walk_sound, mem_next_frontier}

-- Newest node first: no team is above itself, and none above a team that was there before it.
abbrev pub IsForest : List TeamNode → Type 0
IsForest [] = Unit
IsForest (node ∷ teams) = (children (node ∷ teams) node.id ≡ []) × IsForest teams

-- How many nodes of the table are newer than `x`.
place : List TeamNode → String → ℕ
place [] x = 0
place (node ∷ teams) x = let rest = place teams x in if node.id == x then 0 else suc rest

place-le-length : (teams : List TeamNode) (x : String) → place teams x ≤ length teams
unfolding place
place-le-length [] x = omega arith
place-le-length (node ∷ teams) x = ground (arith, place-le-length teams x)

later :
    (node : TeamNode) (teams : List TeamNode) (p c : String)
    → (node.id == p) ≡ false
    → place teams c < place teams p
    → place (node ∷ teams) c < place (node ∷ teams) p
unfolding place
later node teams p c e h = ground arith

first :
    (node : TeamNode) (teams : List TeamNode) (p : String)
    → (node.id == p) ≡ false
    → place (node ∷ teams) node.id < place (node ∷ teams) p
unfolding place
first node teams p e = ground (arith, eq_iff node.id node.id)

-- A child is newer than its parent.
abbrev ChildrenNewer : List TeamNode → List TeamNode → String → Type 0
ChildrenNewer all teams p = All (λ c. place all c < place all p) (children teams p)

one_more :
    (node : TeamNode) (teams : List TeamNode) (p : String)
    → (node.id == p) ≡ false
    → ChildrenNewer teams teams p
    → ChildrenNewer (node ∷ teams) (node ∷ teams) p
unfolding children
one_more node teams p e ih = elim (Bool-cases (node.parent == p)) [
  | inl q ↦
      rw q (first node teams p e, All-map _ _ (λ c. later node teams p c e) (children teams p) ih)
  | inr q ↦ rw q (All-map _ _ (λ c. later node teams p c e) (children teams p) ih)
]

child_is_newer : (teams : List TeamNode) (p : String) → IsForest teams → ChildrenNewer teams teams p
child_is_newer [] p h = unfold children in tt
child_is_newer (node ∷ teams) p (h, hs) = elim (Bool-cases (node.id == p)) [
  | inl e ↦
      let none_below : children (node ∷ teams) p ≡ [] = rw (← (eq_iff node.id p).0 e) h in
      rw none_below tt
  | inr e ↦ one_more node teams p e (child_is_newer teams p hs)
]

below_frontier :
    (teams : List TeamNode) (n : ℕ) (frontier : List String)
    → IsForest teams
    → All (λ x. place teams x < suc n) frontier
    → All (λ x. place teams x < n) (next_frontier teams frontier)
unfolding next_frontier
below_frontier teams n [] h k = tt
below_frontier teams n (id ∷ frontier) h (k, ks) =
    All-append _ (children teams id) (next_frontier teams frontier)
      (All-map _ _ (λ c p. omega arith) (children teams id) (child_is_newer teams id h))
      (below_frontier teams n frontier h ks)

walk_ends :
    (teams : List TeamNode) (fuel : ℕ) (result frontier : List String)
    → IsForest teams
    → All (λ x. place teams x < fuel) frontier
    → (found : List String) × (walk teams fuel result frontier ≡ some found)
unfolding walk
walk_ends teams fuel result [] h k = (result, refl)
walk_ends teams zero result (id ∷ frontier) h k = absurd (omega arith)
walk_ends teams (suc fuel) result (id ∷ frontier) h k =
    walk_ends teams fuel (result ++ id ∷ frontier) (next_frontier teams (id ∷ frontier)) h
      (below_frontier teams fuel (id ∷ frontier) h k)

contains_only : (a x : String) → contains (a ∷ []) x ≡ true → a ≡ x
unfolding contains
contains_only a x h = ground (arith, eq_iff a x)

contains_self : (a : String) → contains (a ∷ []) a ≡ true
unfolding contains
contains_self a = ground (arith, eq_iff a a)

contains_none : {B : Type 0} (x : String) → contains {A = String} [] x ≡ true → B
unfolding contains
contains_none x h = cc

module _ (teams : List TeamNode) (team_id : String) (fuel : ℕ) (found : List String)
    (e : walk teams fuel [] (team_id ∷ []) ≡ some found) (x : String) where
  found-Descends : contains (unique_sorted found) x ≡ true → (x ≢ "") × Descends teams team_id x
  found-Descends m = (
    ground (arith, contains-unique_sorted found x, eq_iff x ""),
    elim (walk_sound teams fuel [] (team_id ∷ []) found x e
        (ground (arith, contains-unique_sorted found x))) [
          | inl old ↦ contains_none x old
          | inr (y, top, d) ↦ rw (contains_only team_id y top) d
        ],
  )

  Descends-found : (x ≢ "") × Descends teams team_id x → contains (unique_sorted found) x ≡ true
  Descends-found (ne, d) =
      let m : contains found x ≡ true =
        walk_complete teams fuel [] (team_id ∷ []) found d e (contains_self team_id) in
      ground (arith, contains-unique_sorted found x, eq_iff x "")

-- On a forest the walk of `subtreeIDs` ends within as many rounds as there are teams and one more,
-- and returns exactly the team and its descendants, less the empty id.
pub subtree_ids_exact :
    (teams : List TeamNode) (team_id : String)
    → IsForest teams
    → (ids : List String) × (subtree_ids team_id teams ≡ some ids)
      × ((x : String) → (contains ids x ≡ true) ↔ ((x ≢ "") × Descends teams team_id x))
unfolding subtree_ids
subtree_ids_exact teams team_id h =
    let (found, e) =
      walk_ends teams (suc (length teams)) [] (team_id ∷ []) h
        (omega (arith, place-le-length teams team_id), tt) in
    (
      unique_sorted found,
      rw e refl,
      λ x. (
        found-Descends teams team_id (suc (length teams)) found e x,
        Descends-found teams team_id (suc (length teams)) found e x,
      ),
    )

-- Whatever the table, what the walk of `subtreeIDs` returns is right.
pub subtree_ids_mem :
    (teams : List TeamNode) (team_id : String) (ids : List String) (x : String)
    → subtree_ids team_id teams ≡ some ids
    → (contains ids x ≡ true) ↔ ((x ≢ "") × Descends teams team_id x)
unfolding subtree_ids
subtree_ids_mem teams team_id ids x h =
    let (found, e, same) = >>=-eq-some (walk teams (suc (length teams)) [] (team_id ∷ [])) _ h in
    let eq : unique_sorted found ≡ ids = cc in
    rw (← eq) (
      found-Descends teams team_id (suc (length teams)) found e x,
      Descends-found teams team_id (suc (length teams)) found e x,
    )

-- A cycle above a team makes the walk of `subtreeIDs` go on for ever: with a team that is its own
-- parent no number of rounds is enough.
pub cycle_never_ends :
    (teams : List TeamNode) (fuel : ℕ) (result frontier : List String) (id : String)
    → contains frontier id ≡ true
    → contains (children teams id) id ≡ true
    → walk teams fuel result frontier ≡ none
unfolding walk
cycle_never_ends teams fuel result [] id m k = contains_none id m
cycle_never_ends teams zero result (x ∷ frontier) id m k = refl
cycle_never_ends teams (suc fuel) result (x ∷ frontier) id m k =
    cycle_never_ends teams fuel (result ++ x ∷ frontier) (next_frontier teams (x ∷ frontier)) id
      (mem_next_frontier teams (x ∷ frontier) id id m k) k
