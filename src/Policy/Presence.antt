-- ===== src/Policy/Presence.antt =====
-- A request carries the header of a limit exactly if the limit covers it.
use agent_enterprise_protoco.Common.{
  ◌+◌, ◌*◌, ◌≤◌, String, ◌≡◌, refl, inl, inr, Bool, true, ◌&&◌, ◌||◌, none, some, List, [], ◌∷◌,
  arith, eq_iff, eq_refl, if◌then◌else◌, bool_ext, length, any, ◌==◌, nat_eq, string_eq, contains,
}
use agent_enterprise_protoco.Common.Results.{ok}
use agent_enterprise_protoco.Common.Maps.{lookup, insert, lookup-insert, length-insert}
use agent_enterprise_protoco.Policy.Limits.{
  Configuration, valid, value_or_empty, subject_header, header, add, add_all, collect_headers,
  headers,
}
use agent_enterprise_protoco.Policy.Scoped.{Scoped, valid-Scoped}
use agent_enterprise_protoco.Policy.Keys.{
  IsEncoding, NoCollision, NoDot, subject_header_inj, global-NoDot, user-NoDot, team-NoDot,
  role-NoDot,
}

-- The limit covers a request of this user, with these memberships, for this model.
unfoldable pub applies : Configuration → (model user : String) (teams roles : List String) → Bool
applies c model user teams roles =
    let id = value_or_empty c.scope_id in
    let for_model = value_or_empty c.model_id == "" || value_or_empty c.model_id == model in
    if c.scope_type == "model"
    then id == model
    else if c.scope_type == "global"
    then for_model
    else if c.scope_type == "user"
    then id == user && for_model
    else if c.scope_type == "team"
    then contains teams id && for_model
    else contains roles id && for_model

module _ (encode digest : String → String) where
  -- `name` is a header that `add` writes for the subject.
  abbrev names : String → String → String → String → Bool
  names name model kind id =
      subject_header encode digest kind id model == name
      || subject_header encode digest kind id "" == name

  lookup-add :
      (name model kind id : String) (hs : List (String × String))
      → lookup name (add encode digest model kind id hs)
        ≡ (if names name model kind id then some "1" else lookup name hs)
  unfolding add
  lookup-add name model kind id hs = ground (
    arith,
    lookup-insert (subject_header encode digest kind id model) name "1"
        (insert (subject_header encode digest kind id "") "1" hs),
    lookup-insert (subject_header encode digest kind id "") name "1" hs,
  )

  lookup-add_all :
      (name model kind : String) (ids : List String) (hs : List (String × String))
      → lookup name (add_all encode digest model kind ids hs)
        ≡ (if any (names name model kind) ids then some "1" else lookup name hs)
  unfolding add_all
  lookup-add_all name model kind [] hs = refl
  lookup-add_all name model kind (id ∷ ids) hs = ground (
    arith,
    lookup-add name model kind id hs,
    lookup-add_all name model kind ids (add encode digest model kind id hs),
  )

  lookup-collect :
      (name model user : String) (teams roles : List String)
      → lookup name (collect_headers encode digest model user teams roles) ≡ (
          if names name model "global" ""
            || names name model "user" user
            || any (names name model "team") teams
            || any (names name model "role") roles
          then some "1"
          else none)
  unfolding collect_headers lookup
  lookup-collect name model user teams roles =
      let h₁ : List (String × String) = add encode digest model "global" "" [] in
      let h₂ = add encode digest model "user" user h₁ in
      let h₃ = add_all encode digest model "team" teams h₂ in
      ground (
        arith,
        lookup-add name model "global" "" [],
        lookup-add name model "user" user h₁,
        lookup-add_all name model "team" teams h₂,
        lookup-add_all name model "role" roles h₃,
      )

  headers-ok :
      (model user : String) (teams roles : List String) (hs : List (String × String))
      → headers encode digest model user teams roles ≡ ok hs
      → collect_headers encode digest model user teams roles ≡ hs
  unfolding headers
  headers-ok model user teams roles hs h = ground arith

  length-add :
      (model kind id : String) (hs : List (String × String))
      → length (add encode digest model kind id hs) ≤ length hs + 2
  unfolding add
  length-add model kind id hs = omega (
    arith,
    length-insert (subject_header encode digest kind id model) "1"
        (insert (subject_header encode digest kind id "") "1" hs),
    length-insert (subject_header encode digest kind id "") "1" hs,
  )

  length-add_all :
      (model kind : String) (ids : List String) (hs : List (String × String))
      → length (add_all encode digest model kind ids hs) ≤ length hs + 2 * length ids
  unfolding add_all
  length-add_all model kind [] hs = omega arith
  length-add_all model kind (id ∷ ids) hs = omega (
    arith,
    length-add model kind id hs,
    length-add_all model kind ids (add encode digest model kind id hs),
  )

  -- A user with at most 38 memberships is never refused for having too many.
  pub headers_fit :
      (model user : String) (teams roles : List String)
      → length teams + length roles ≤ 38
      → headers encode digest model user teams roles
        ≡ ok (collect_headers encode digest model user teams roles)
  unfolding headers collect_headers
  headers_fit model user teams roles h =
      let h₁ : List (String × String) = add encode digest model "global" "" [] in
      let h₂ = add encode digest model "user" user h₁ in
      let h₃ = add_all encode digest model "team" teams h₂ in
      ground (
        arith,
        length-add model "global" "" [],
        length-add model "user" user h₁,
        length-add_all model "team" teams h₂,
        length-add_all model "role" roles h₃,
      )

  module _ (enc : IsEncoding encode) (nc : NoCollision digest) where
    same_header :
        (kind id model kind' id' model' : String)
        → NoDot kind
        → NoDot kind'
        → (subject_header encode digest kind id model
            == subject_header encode digest kind' id' model')
          ≡ (kind == kind' && id == id' && model == model')
    same_header kind id model kind' id' model' h h' =
        bool_ext _ _
          (λ e.
            let (a, b, c) =
              subject_header_inj encode digest enc kind id model kind' id' model' nc h h'
                ((eq_iff _ _).0 e) in
            rw (a, b, c) (ground (arith, eq_refl kind', eq_refl id', eq_refl model')))
          (λ e. ground (
            arith,
            eq_iff kind kind',
            eq_iff id id',
            eq_iff model model',
            eq_iff (subject_header encode digest kind id model)
                (subject_header encode digest kind' id' model'),
          ))

    any-names :
        (t sid m model kind : String) (ids : List String)
        → NoDot t
        → NoDot kind
        → any (names (subject_header encode digest t sid m) model kind) ids
          ≡ (kind == t && contains ids sid && (model == m || "" == m))
    unfolding contains
    any-names t sid m model kind [] h k = ground arith
    any-names t sid m model kind (id ∷ ids) h k = ground (
      arith,
      any-names t sid m model kind ids h k,
      same_header kind id model t sid m k h,
      same_header kind id "" t sid m k h,
    )

    -- Whether the header of a subject is among those of a request.
    lookup-subject :
        (t sid m model user : String) (teams roles : List String)
        → NoDot t
        → lookup
            (subject_header encode digest t sid m)
            (collect_headers encode digest model user teams roles)
          ≡ (if (("global" == t && "" == sid)
                  || ("user" == t && user == sid)
                  || ("team" == t && contains teams sid)
                  || ("role" == t && contains roles sid))
                && (model == m || "" == m)
              then some "1"
              else none)
    lookup-subject t sid m model user teams roles h = ground (
      arith,
      lookup-collect (subject_header encode digest t sid m) model user teams roles,
      same_header "global" "" model t sid m global-NoDot h,
      same_header "global" "" "" t sid m global-NoDot h,
      same_header "user" user model t sid m user-NoDot h,
      same_header "user" user "" t sid m user-NoDot h,
      any-names t sid m model "team" teams h team-NoDot,
      any-names t sid m model "role" roles h role-NoDot,
    )

    lookup-header :
        (c : Configuration) (model user : String) (teams roles : List String)
        → Scoped c
        → lookup (header encode digest c) (collect_headers encode digest model user teams roles)
          ≡ (if applies c model user teams roles then some "1" else none)
    unfolding header applies
    lookup-header c model user teams roles (inl (e, ne)) = rw e (
        ground (
          arith,
          lookup-subject "global" "" (value_or_empty c.scope_id) model user teams roles
              global-NoDot,
          eq_iff model (value_or_empty c.scope_id),
          eq_iff (value_or_empty c.scope_id) model,
          eq_iff "" (value_or_empty c.scope_id),
        ))
    lookup-header c model user teams roles (inr (inl (e, blank))) =
        let sid = value_or_empty c.scope_id in
        let m = value_or_empty c.model_id in
        rw e (
          ground (
            arith,
            lookup-subject "global" sid m model user teams roles global-NoDot,
            eq_iff model m,
            eq_iff m model,
            eq_iff m "",
            eq_iff "" m,
            eq_iff "" sid,
          ))
    lookup-header c model user teams roles (inr (inr (inl e))) =
        let sid = value_or_empty c.scope_id in
        let m = value_or_empty c.model_id in
        rw e (
          ground (
            arith,
            lookup-subject "user" sid m model user teams roles user-NoDot,
            eq_iff model m,
            eq_iff m model,
            eq_iff m "",
            eq_iff "" m,
            eq_iff user sid,
            eq_iff sid user,
          ))
    lookup-header c model user teams roles (inr (inr (inr (inl e)))) =
        let sid = value_or_empty c.scope_id in
        let m = value_or_empty c.model_id in
        rw e (
          ground (
            arith,
            lookup-subject "team" sid m model user teams roles team-NoDot,
            eq_iff model m,
            eq_iff m model,
            eq_iff m "",
            eq_iff "" m,
          ))
    lookup-header c model user teams roles (inr (inr (inr (inr e)))) =
        let sid = value_or_empty c.scope_id in
        let m = value_or_empty c.model_id in
        rw e (
          ground (
            arith,
            lookup-subject "role" sid m model user teams roles role-NoDot,
            eq_iff model m,
            eq_iff m model,
            eq_iff m "",
            eq_iff "" m,
          ))

    -- The native plugin that enforces a valid limit selects on the limit's header: an accepted
    -- request carries that header, with the value 1, exactly if the limit covers its model and its
    -- user, one of its teams or one of its roles.
    pub lookup-header-headers :
        (c : Configuration) (model user : String) (teams roles : List String)
        (hs : List (String × String))
        → valid c ≡ true
        → headers encode digest model user teams roles ≡ ok hs
        → lookup (header encode digest c) hs
          ≡ (if applies c model user teams roles then some "1" else none)
    lookup-header-headers c model user teams roles hs v h =
        let same = headers-ok model user teams roles hs h in
        rw (← same) (lookup-header c model user teams roles (valid-Scoped c v))
