-- ===== src/Publication/Withdrawn.antt =====
-- What publication_invalidation.go's `invalidateSelected` leaves selected.
use agent_enterprise_protoco.Common.{
  String, ◌≡◌, refl, sym, ap, ◌∙◌, ◌⊎◌, inl, inr, Bool, true, false, not, ◌&&◌, ◌||◌, Option, none,
  some, List, [], ◌∷◌, map, arith, leb, if◌then◌else◌, Bool-cases, any, All, All-map, ◌==◌, nat_eq,
  string_eq,
}
use mathlib.Core.Path.{subst}
use agent_enterprise_protoco.Common.Maps.{lookup, insert, delete, lookup-insert, lookup-delete}
use agent_enterprise_protoco.Publication.Selection.{
  Route, Limit, GatewayLimit, InvalidationSnapshot, name_models, forget_removed, is_set, is_model,
  is_lost, is_fenced_by, fence_by, disable_lost, index_fences, fences_off, fence_limit, is_fenced,
  apply_fence, fence_limits, any_fenced, invalidate_selected,
}

abbrev pub names : List String → String → Bool
names ids id = any (λ j. j == id) ids

is_model-insert :
    (j : String) (models : List (String × Bool)) (id : String)
    → is_model (insert j true models) id ≡ (j == id || is_model models id)
unfolding is_model
is_model-insert j models id =
    ap is_set (lookup-insert j id true models) ∙ chosen (j == id) (lookup id models)
  where
    chosen :
        (b : Bool) (found : Option Bool)
        → is_set (if b then some true else found) ≡ (b || is_set found)
    chosen true found = refl
    chosen false found = refl

is_model-delete :
    (j : String) (models : List (String × Bool)) (id : String)
    → is_model (delete j models) id ≡ (not (j == id) && is_model models id)
unfolding is_model
is_model-delete j models id =
    ap is_set (lookup-delete j id models) ∙ chosen (j == id) (lookup id models)
  where
    chosen :
        (b : Bool) (found : Option Bool)
        → is_set (if b then none else found) ≡ (not b && is_set found)
    chosen true found = refl
    chosen false found = refl

name_models-names : (ids : List String) (id : String) → is_model (name_models ids) id ≡ names ids id
unfolding name_models
name_models-names [] id = unfold is_model lookup in refl
name_models-names (j ∷ ids) id =
    ground (arith, is_model-insert j (name_models ids) id, name_models-names ids id)

forget_removed-names :
    (removed : List String) (models : List (String × Bool)) (id : String)
    → is_model (forget_removed removed models) id ≡ (is_model models id && not (names removed id))
unfolding forget_removed
forget_removed-names [] models id = ground arith
forget_removed-names (j ∷ removed) models id =
    ground (arith, is_model-delete j models id, forget_removed-names removed (delete j models) id)

-- Whether a route is enabled without a model, or a limit although its fence has reached its version.
abbrev pub is_dangling : (ids removed : List String) → Route → Bool
is_dangling ids removed r =
    r.enabled && not (names ids r.model_id && not (names removed r.model_id))

abbrev pub is_overrun : Option GatewayLimit → Limit → Bool
is_overrun none l = false
is_overrun (some f) l = l.configuration.enabled && leb l.version f.version

is_lost-is_dangling :
    (ids removed : List String) (r : Route)
    → is_lost (forget_removed removed (name_models ids)) r ≡ is_dangling ids removed r
unfolding is_lost
is_lost-is_dangling ids removed r = ground (
  arith,
  forget_removed-names removed (name_models ids) r.model_id,
  name_models-names ids r.model_id,
)

module _ (models : List (String × Bool)) where
  disabled_none_lost :
      (rs : List Route) → All (λ r. is_lost models r ≡ false) (disable_lost models rs)
  unfolding disable_lost
  disabled_none_lost [] = tt
  disabled_none_lost (r ∷ rs) = elim (Bool-cases (is_lost models r)) [
    | inl lost ↦ rw lost (unfold is_lost in refl, disabled_none_lost rs)
    | inr kept ↦ rw kept (kept, disabled_none_lost rs)
  ]

  disable_none : (rs : List Route) → any (is_lost models) rs ≡ false → disable_lost models rs ≡ rs
  unfolding disable_lost
  disable_none [] h = refl
  disable_none (r ∷ rs) h =
      let kept : is_lost models r ≡ false = ground arith in
      let rest = disable_none rs (ground arith) in rw (kept, rest) refl

fence_by_id : (found : Option GatewayLimit) (l : Limit) → (fence_by found l).id ≡ l.id
unfolding fence_by fence_limit
fence_by_id none l = refl
fence_by_id (some f) l = elim (Bool-cases (fences_off f l)) [
  | inl e ↦ rw e refl
  | inr e ↦ rw e refl
]

fence_by_settled :
    (found : Option GatewayLimit) (l : Limit)
    → (is_fenced_by found (fence_by found l) ≡ false)
      × (is_overrun found (fence_by found l) ≡ false)
unfolding fence_by is_fenced_by fence_limit fences_off
fence_by_settled none l = (refl, refl)
fence_by_settled (some f) l = elim (Bool-cases (fences_off f l)) [
  | inl hit ↦ rw hit (ground arith, ground arith)
  | inr missed ↦ rw missed (missed, ground (arith, missed))
]

fence_by_none :
    (found : Option GatewayLimit) (l : Limit) → is_fenced_by found l ≡ false → fence_by found l ≡ l
unfolding fence_by is_fenced_by
fence_by_none none l h = refl
fence_by_none (some f) l h = rw h refl

module _ (by_id : List (String × GatewayLimit)) where
  abbrev IsSettledLimit : Limit → Type 0
  IsSettledLimit l = (is_fenced by_id l ≡ false) × (is_overrun (lookup l.id by_id) l ≡ false)

  apply_fence_settled : (l : Limit) → IsSettledLimit (apply_fence by_id l)
  unfolding apply_fence is_fenced
  apply_fence_settled l =
      let found = lookup l.id by_id in
      subst
        (λ k.
          (is_fenced_by (lookup k by_id) (fence_by found l) ≡ false)
          × (is_overrun (lookup k by_id) (fence_by found l) ≡ false))
        (sym (fence_by_id found l)) (fence_by_settled found l)

  fenced_limits_settled : (ls : List Limit) → All IsSettledLimit (map (apply_fence by_id) ls)
  fenced_limits_settled [] = tt
  fenced_limits_settled (l ∷ ls) = (apply_fence_settled l, fenced_limits_settled ls)

  apply_none :
      (ls : List Limit) → any (is_fenced by_id) ls ≡ false → map (apply_fence by_id) ls ≡ ls
  unfolding apply_fence is_fenced
  apply_none [] h = refl
  apply_none (l ∷ ls) h =
      let kept : is_fenced_by (lookup l.id by_id) l ≡ false = ground arith in
      rw (fence_by_none (lookup l.id by_id) l kept, apply_none ls (ground arith)) refl

none_any : {A : Type 0} (f : A → Bool) (xs : List A) → All (λ x. f x ≡ false) xs → any f xs ≡ false
none_any f [] h = refl
none_any f (x ∷ xs) (e, h) = ground (arith, e, none_any f xs h)

abbrev pub limits_of : Option (List Limit) → List Limit
limits_of none = []
limits_of (some ls) = ls

limits_settled :
    (fences : List GatewayLimit) (found : Option (List Limit))
    → All
        (λ l. is_overrun (lookup l.id (index_fences fences [])) l ≡ false)
        (limits_of (fence_limits fences found))
      × (any_fenced fences (fence_limits fences found) ≡ false)
unfolding fence_limits any_fenced
limits_settled fences none = (tt, refl)
limits_settled fences (some ls) =
    let by_id = index_fences fences [] in
    let settled = fenced_limits_settled by_id ls in
    (
      All-map (IsSettledLimit by_id) _ (λ l (e, f). f) (map (apply_fence by_id) ls) settled,
      none_any (is_fenced by_id) (map (apply_fence by_id) ls)
          (All-map (IsSettledLimit by_id) _ (λ l (e, f). e) (map (apply_fence by_id) ls) settled),
    )

fence_none :
    (fences : List GatewayLimit) (found : Option (List Limit))
    → any_fenced fences found ≡ false
    → fence_limits fences found ≡ found
unfolding fence_limits any_fenced
fence_none fences none h = refl
fence_none fences (some ls) h = ap some (apply_none (index_fences fences []) ls h)

-- What a selection is like after an invalidation.
pub record IsWithdrawn (ids removed : List String) (fences : List GatewayLimit)
    (state : InvalidationSnapshot) : Type 0 where
  pub routes_backed : All (λ r. is_dangling ids removed r ≡ false) state.routes
  pub limits_fenced :
      All
        (λ l. is_overrun (lookup l.id (index_fences fences [])) l ≡ false)
        (limits_of state.gateway_limits)
  pub stable : (invalidate_selected state ids removed fences).1 ≡ false

same_parts :
    (state : InvalidationSnapshot) (rs : List Route) (gs : Option (List Limit))
    → rs ≡ state.routes
    → gs ≡ state.gateway_limits
    → Path InvalidationSnapshot (record state { routes = rs; gateway_limits = gs }) state
same_parts state rs gs r g = λ i. record state { routes = r i; gateway_limits = g i }

-- What is removed is taken out of the selection. Afterwards every enabled route has its
-- model among the models there are and not among those removed, no limit is enabled whose fence has
-- reached its version, and a second invalidation finds nothing to change; and when the invalidation
-- reports no change, the selection is as it was.
pub invalidate_selected-IsWithdrawn :
    (state : InvalidationSnapshot) (ids removed : List String) (fences : List GatewayLimit)
    → let (state', changed) = invalidate_selected state ids removed fences in
      IsWithdrawn ids removed fences state' × ((changed ≡ true) ⊎ (state' ≡ state))
unfolding invalidate_selected
invalidate_selected-IsWithdrawn state ids removed fences =
    let models = forget_removed removed (name_models ids) in
    let routes = disabled_none_lost models state.routes in
    let (fenced, none_left) = limits_settled fences state.gateway_limits in
    let quiet = none_any (is_lost models) (disable_lost models state.routes) routes in
    (
      record {
        routes_backed =
            All-map _ (λ r. is_dangling ids removed r ≡ false)
              (λ r kept. sym (is_lost-is_dangling ids removed r) ∙ kept)
              (disable_lost models state.routes) routes;
        limits_fenced = fenced;
        stable = ground (arith, quiet, none_left);
      },
      elim (Bool-cases
          (any (is_lost models) state.routes || any_fenced fences state.gateway_limits)) [
            | inl changed ↦ inl changed
            | inr same ↦ inr (
                same_parts state _ _ (disable_none models state.routes (ground (arith, same)))
                  (fence_none fences state.gateway_limits (ground (arith, same))))
          ],
    )
