-- ===== src/Scope/Creation.antt =====
-- rbac_handlers.go, `createTeam` for a request that names no default roles: the only writer of a
-- team's parent. The table is newest first.
use agent_enterprise_protoco.Common.{
  ℕ, ◌+◌, String, ◌≡◌, refl, ◌≢◌, ◌↔◌, ◌⊎◌, inl, inr, Bool, true, ◌||◌, Option, none, some, List,
  [], ◌∷◌, map, arith, eq_iff, if◌then◌else◌, Bool-cases, filter, ◌==◌, nat_eq, string_eq, contains,
}
use agent_enterprise_protoco.Common.Results.{
  Result, ok, err, refuse_if, refuse_if-ok, >>=-eq-ok, ◌>>=◌, ◌>>◌,
}
use agent_enterprise_protoco.Common.Text.{trim_space, append}
use agent_enterprise_protoco.Scope.Teams.{TeamNode, children, subtree_ids}
use agent_enterprise_protoco.Scope.Forest.{Descends}
use agent_enterprise_protoco.Scope.Ends.{IsForest, subtree_ids_exact}

pub data TeamError : Type 0 where
  invalid_team team_exists : TeamError

-- A request body of `createTeam`, and a row of the table `teams`.
pub record TeamInput : Type 0 where
  pub name : String
  pub parent_id : String

pub record Team : Type 0 where
  pub id : String
  pub parent_team_id : Option String
  pub path : String
  pub depth : ℕ

unfoldable pub get_team_record : List Team → String → Option Team
get_team_record [] id = none
get_team_record (team ∷ teams) id =
    let rest = get_team_record teams id in if team.id == id then some team else rest

unfoldable pub parent_path : Team → String
parent_path parent =
    if parent.path == "" || parent.path == "/" then append "/" parent.id else parent.path

place_under : Option Team → String → String → Result TeamError Team
unfolding parent_path
place_under none parent_id identifier = err invalid_team
place_under (some parent) parent_id identifier = ok (record {
  id = identifier;
  parent_team_id = some parent_id;
  path = append (parent_path parent) (append "/" identifier);
  depth = parent.depth + 1;
})

-- The row to be written: its path and depth are pinned by the parent's.
unfoldable pub new_team : List Team → TeamInput → String → Result TeamError Team
unfolding place_under get_team_record
new_team teams input identifier =
    if input.parent_id == ""
    then ok
        (record { id = identifier; parent_team_id = none; path = append "/" identifier; depth = 0 })
    else place_under (get_team_record teams input.parent_id) input.parent_id identifier

-- The store's unique key refuses a second row with the same id.
insert_team : List Team → Team → Result TeamError (List Team)
insert_team teams team = elim (get_team_record teams team.id) [
  | some _ ↦ err team_exists
  | none ↦ ok (team ∷ teams)
]

-- `identifier` is the one that the server generates.
unfoldable pub create_team : List Team → TeamInput → String → Result TeamError (List Team)
unfolding new_team insert_team
create_team teams input identifier = do
  refuse_if (trim_space input.name == "") invalid_team
  team ← new_team teams input identifier
  insert_team teams team

-- The columns that the walk reads, `COALESCE(parent_team_id,'')`.
unfoldable pub coalesce : Option String → String
coalesce none = ""
coalesce (some parent) = parent

unfoldable pub node_of : Team → TeamNode
unfolding coalesce
node_of team = record { id = team.id; parent = coalesce team.parent_team_id; path = team.path }

-- A table that only `create_team` has written to, with ids that are never empty.
pub data Created : List Team → Type 0 where
  empty : Created []
  create :
      {teams teams' : List Team} (input : TeamInput) (identifier : String)
      → Created teams
      → identifier ≢ ""
      → create_team teams input identifier ≡ ok teams'
      → Created teams'

-- Every parent named in the table is an older row.
abbrev ParentsOlder : List Team → Type 0
ParentsOlder [] = Unit
ParentsOlder (team ∷ teams) =
    (team.id ≢ "")
    × (get_team_record teams team.id ≡ none)
    × ((coalesce team.parent_team_id ≡ "")
        ⊎ (get_team_record teams (coalesce team.parent_team_id) ≢ none))
    × ParentsOlder teams

no_children :
    (teams : List Team) (x : String)
    → ParentsOlder teams
    → x ≢ ""
    → get_team_record teams x ≡ none
    → children (map node_of teams) x ≡ []
unfolding children node_of get_team_record
no_children [] x h ne e = refl
no_children (team ∷ teams) x (_, _, inl top, hs) ne e =
    ground (arith, eq_iff (coalesce team.parent_team_id) x, no_children teams x hs ne)
no_children (team ∷ teams) x (_, _, inr known, hs) ne e =
    ground (arith, eq_iff (coalesce team.parent_team_id) x, no_children teams x hs ne)

none_below :
    (team : Team) (teams : List Team)
    → ParentsOlder (team ∷ teams)
    → children (map node_of teams) team.id ≡ []
    → children (map node_of (team ∷ teams)) team.id ≡ []
unfolding children node_of
none_below team teams (ne, fresh, inl top, hs) k =
    ground (arith, eq_iff (coalesce team.parent_team_id) team.id)
none_below team teams (ne, fresh, inr known, hs) k =
    ground (arith, eq_iff (coalesce team.parent_team_id) team.id)

ParentsOlder-IsForest : (teams : List Team) → ParentsOlder teams → IsForest (map node_of teams)
unfolding node_of
ParentsOlder-IsForest [] h = tt
ParentsOlder-IsForest (team ∷ teams) h = (
  none_below team teams h (no_children teams team.id h.3 h.0 h.1),
  ParentsOlder-IsForest teams h.3,
)

abbrev HasKnownParent : List Team → Team → Type 0
HasKnownParent teams team =
    (coalesce team.parent_team_id ≡ "")
    ⊎ (get_team_record teams (coalesce team.parent_team_id) ≢ none)

new_team-HasKnownParent :
    (teams : List Team) (input : TeamInput) (identifier : String) (team : Team)
    → new_team teams input identifier ≡ ok team
    → (team.id ≡ identifier) × HasKnownParent teams team
unfolding new_team coalesce
new_team-HasKnownParent teams input identifier team e = ground (arith, eq_iff input.parent_id "")

insert_team_fresh :
    (teams teams' : List Team) (team : Team)
    → insert_team teams team ≡ ok teams'
    → (get_team_record teams team.id ≡ none) × (teams' ≡ team ∷ teams)
unfolding insert_team
insert_team_fresh teams teams' team e = ground arith

create_team-ParentsOlder :
    (teams teams' : List Team) (input : TeamInput) (identifier : String)
    → ParentsOlder teams
    → identifier ≢ ""
    → create_team teams input identifier ≡ ok teams'
    → ParentsOlder teams'
unfolding create_team
create_team-ParentsOlder teams teams' input identifier h ne e =
    let (_, e₁) = refuse_if-ok (trim_space input.name == "") invalid_team _ e in
    let (team, made, e₂) = >>=-eq-ok (new_team teams input identifier) _ e₁ in
    let (same, known) = new_team-HasKnownParent teams input identifier team made in
    let (fresh, shape) = insert_team_fresh teams teams' team e₂ in
    rw shape (rw same ne, fresh, known, h)

Created-ParentsOlder : {teams : List Team} → Created teams → ParentsOlder teams
Created-ParentsOlder empty = tt
Created-ParentsOlder (create {teams} {teams'} input identifier c ne e) =
    create_team-ParentsOlder teams teams' input identifier (Created-ParentsOlder c) ne e

children-filter :
    (enabled : TeamNode → Bool) (nodes : List TeamNode) (x : String)
    → children nodes x ≡ []
    → children (filter enabled nodes) x ≡ []
unfolding children
children-filter enabled [] x h = refl
children-filter enabled (node ∷ nodes) x h = ground (arith, children-filter enabled nodes x)

IsForest-filter :
    (enabled : TeamNode → Bool) (nodes : List TeamNode)
    → IsForest nodes
    → IsForest (filter enabled nodes)
IsForest-filter enabled [] h = tt
IsForest-filter enabled (node ∷ nodes) (h, hs) = elim (Bool-cases (enabled node)) [
  | inl e ↦
      let kept : children (filter enabled (node ∷ nodes)) node.id ≡ [] =
        children-filter enabled (node ∷ nodes) node.id h in
      rw e (rw e at kept, IsForest-filter enabled nodes hs)
  | inr e ↦ rw e (IsForest-filter enabled nodes hs)
]

-- On the enabled teams of a table that only `createTeam` has written to, with no empty id, the walk
-- of `subtreeIDs` ends for every team, and returns exactly the team and its descendants by enabled
-- teams, less the empty id.
pub Created-subtree_ids :
    (teams : List Team) (enabled : TeamNode → Bool) (team_id : String)
    → Created teams
    → let nodes = filter enabled (map node_of teams) in
      (ids : List String) × (subtree_ids team_id nodes ≡ some ids)
      × ((x : String) → (contains ids x ≡ true) ↔ ((x ≢ "") × Descends nodes team_id x))
Created-subtree_ids teams enabled team_id c =
    subtree_ids_exact (filter enabled (map node_of teams)) team_id (
      IsForest-filter enabled (map node_of teams)
        (ParentsOlder-IsForest teams (Created-ParentsOlder c)))
