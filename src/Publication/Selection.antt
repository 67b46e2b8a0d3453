-- ===== src/Publication/Selection.antt =====
-- publication_invalidation.go: `invalidateSelected`, which takes what was removed out of the
-- selected routes and limits. Versions are natural numbers; the Go maps are built from lists by
-- assignment, later entries over earlier ones.
use agent_enterprise_protoco.Common.{
  ℕ, String, Bool, true, false, not, ◌&&◌, ◌||◌, Option, none, some, List, [], ◌∷◌, map, ltb, leb,
  if◌then◌else◌, any, nat_eq, string_eq,
}
use agent_enterprise_protoco.Common.Maps.{lookup, insert, delete}
use agent_enterprise_protoco.Policy.Limits.{Configuration}

pub record SecretReference : Type 0 where
  pub namespace : Option String
  pub name : String
  pub key : String

-- gatewayrender's route, without the parsed address that is never stored.
pub record Route : Type 0 where
  pub model_id : String
  pub enabled : Bool
  pub endpoint : String
  pub upstream_model : String
  pub protocol : String
  pub provider_type : String
  pub credential_ref : Option SecretReference

-- gatewaypolicy's limit.
pub record Limit : Type 0 where
  pub id : String
  pub version : ℕ
  pub configuration : Configuration
  pub updated_at : ℕ

-- The fields of a `GatewayLimit` row that are read here.
pub record GatewayLimit : Type 0 where
  pub id : String
  pub version : ℕ
  pub updated_at : ℕ

pub record InvalidationSnapshot : Type 0 where
  pub revision : String
  pub routes : List Route
  pub gateway_limits : Option (List Limit)

-- `models[id] = true` for each id.
unfoldable pub name_models : List String → List (String × Bool)
name_models [] = []
name_models (id ∷ ids) = insert id true (name_models ids)

unfoldable pub forget_removed : List String → List (String × Bool) → List (String × Bool)
forget_removed [] models = models
forget_removed (id ∷ removed) models = forget_removed removed (delete id models)

-- `models[id]`, which is false where the key is absent.
abbrev pub is_set : Option Bool → Bool
is_set none = false
is_set (some b) = b

unfoldable pub is_model : List (String × Bool) → String → Bool
is_model models id = is_set (lookup id models)

unfoldable pub is_lost : List (String × Bool) → Route → Bool
is_lost models r = r.enabled && not (is_model models r.model_id)

unfoldable pub disable_lost : List (String × Bool) → List Route → List Route
disable_lost models [] = []
disable_lost models (r ∷ rs) =
    (if is_lost models r then record r { enabled = false } else r) ∷ disable_lost models rs

-- `byID[fence.ID] = fence` in order, so that the last fence of an id remains.
unfoldable pub index_fences :
    List GatewayLimit → List (String × GatewayLimit) → List (String × GatewayLimit)
index_fences [] by_id = by_id
index_fences (f ∷ fences) by_id = index_fences fences (insert f.id f by_id)

unfoldable pub fences_off : GatewayLimit → Limit → Bool
fences_off fence item =
    leb item.version fence.version && (item.configuration.enabled || ltb item.version fence.version)

unfoldable pub fence_limit : GatewayLimit → Limit → Limit
fence_limit fence item = record item {
  configuration = record item.configuration { enabled = false };
  version = fence.version;
  updated_at = fence.updated_at;
}

unfoldable pub is_fenced_by : Option GatewayLimit → Limit → Bool
is_fenced_by none item = false
is_fenced_by (some f) item = fences_off f item

unfoldable pub fence_by : Option GatewayLimit → Limit → Limit
fence_by none item = item
fence_by (some f) item = if fences_off f item then fence_limit f item else item

unfoldable pub is_fenced : List (String × GatewayLimit) → Limit → Bool
is_fenced by_id item = is_fenced_by (lookup item.id by_id) item

unfoldable pub apply_fence : List (String × GatewayLimit) → Limit → Limit
apply_fence by_id item = fence_by (lookup item.id by_id) item

unfoldable pub fence_limits : List GatewayLimit → Option (List Limit) → Option (List Limit)
fence_limits fences none = none
fence_limits fences (some limits) = some (map (apply_fence (index_fences fences [])) limits)

unfoldable pub any_fenced : List GatewayLimit → Option (List Limit) → Bool
any_fenced fences none = false
any_fenced fences (some limits) = any (is_fenced (index_fences fences [])) limits

-- The selection afterwards, and whether anything changed.
unfoldable pub invalidate_selected :
    InvalidationSnapshot
    → (ids removed : List String) → (fences : List GatewayLimit) → InvalidationSnapshot × Bool
invalidate_selected state ids removed fences =
    let models = forget_removed removed (name_models ids) in
    (
      record state {
        routes = disable_lost models state.routes;
        gateway_limits = fence_limits fences state.gateway_limits;
      },
      any (is_lost models) state.routes || any_fenced fences state.gateway_limits,
    )
