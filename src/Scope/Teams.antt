-- ===== src/Scope/Teams.antt =====
-- datascope.go, the department tree: `TeamNode`, `uniqueSorted` and `subtreeIDs`. The map of teams
-- is a list of nodes in the order in which the map is walked; times are nanoseconds.
use agent_enterprise_protoco.Common.{
  ℕ, zero, suc, String, ◌≡◌, not, ◌&&◌, Option, none, some, List, [], ◌∷◌, ◌++◌, arith,
  if◌then◌else◌, length, ◌==◌, nat_eq, string_eq, contains, sort_by, unique_from, contains-sort_by,
  contains-unique_from,
}
use agent_enterprise_protoco.Common.Options.{◌>>=◌}
use agent_enterprise_protoco.Common.Text.{str_lt}

pub record TeamNode : Type 0 where
  pub id : String
  pub parent : String
  pub path : String

-- Empty texts and repetitions are dropped, and the rest is sorted.
unfoldable pub unique_sorted : List String → List String
unique_sorted values = sort_by str_lt (unique_from (λ v. v == "") [] values)

-- `children[id]`: the ids of the nodes whose parent is `id`.
unfoldable pub children : List TeamNode → String → List String
children [] id = []
children (node ∷ teams) id =
    let rest = children teams id in if node.parent == id then node.id ∷ rest else rest

-- One round of the walk: the children of the whole frontier.
unfoldable pub next_frontier : List TeamNode → List String → List String
unfolding children
next_frontier teams [] = []
next_frontier teams (id ∷ frontier) = children teams id ++ next_frontier teams frontier

-- `for len(frontier) > 0`. The source has no bound; `none` means that the rounds ran out.
unfoldable pub walk : List TeamNode → ℕ → List String → List String → Option (List String)
unfolding next_frontier
walk teams fuel result [] = some result
walk teams zero result (id ∷ frontier) = none
walk teams (suc fuel) result (id ∷ frontier) =
    walk teams fuel (result ++ id ∷ frontier) (next_frontier teams (id ∷ frontier))

unfoldable pub subtree_ids : String → List TeamNode → Option (List String)
unfolding walk unique_sorted
subtree_ids team_id teams = do
  result ← walk teams (suc (length teams)) [] (team_id ∷ [])
  some (unique_sorted result)

pub contains-unique_sorted :
    (xs : List String) (b : String)
    → contains (unique_sorted xs) b ≡ (not (b == "") && contains xs b)
unfolding unique_sorted contains
contains-unique_sorted xs b = ground (
  arith,
  contains-sort_by str_lt (unique_from (λ v. v == "") [] xs) b,
  contains-unique_from (λ v. v == "") [] xs b,
)
