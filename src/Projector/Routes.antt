-- ===== src/Projector/Routes.antt =====
-- projector.go: `routeSpec` and `desiredRoutes`. The decoders and the encoder of JSON, SHA-256 and
-- `url.Parse` are parameters.
use agent_enterprise_protoco.Common.{
  String, Bool, true, false, not, ◌&&◌, ◌||◌, Option, none, some, List, [], ◌∷◌, ltb, if◌then◌else◌,
  any, ◌==◌, nat_eq, string_eq,
}
use agent_enterprise_protoco.Common.Results.{Result, ok, err, refuse_if, ◌>>=◌, ◌>>◌}
use agent_enterprise_protoco.Common.Maps.{insert}
use agent_enterprise_protoco.Publication.Selection.{Route, SecretReference, InvalidationSnapshot}
use agent_enterprise_protoco.Publication.Delivery.{PublicationDelivery}
use agent_enterprise_protoco.Publication.Relay.{Projection, unrepresentable}

pub record Url : Type 0 where
  pub scheme : String
  pub host : String
  pub has_user : Bool
  pub raw_query : String
  pub fragment : String

pub record Codecs : Type 0 where
  pub decode : String → Option InvalidationSnapshot
  pub decode_history : String → Option (List Route)
  pub encode : InvalidationSnapshot → String
  pub digest : String → String
  pub short_digest : String → String
  pub parse_url : String → Option Url

pub record RouteSpec : Type 0 where
  pub deployment_ref : String
  pub model_id : String
  pub protocol : String
  pub provider_type : String
  pub enabled : Bool
  pub endpoint : String
  pub model : String
  pub credential_ref : Option (String × String)
  -- The tenant scope, which the projector never sets.
  pub tenant_scope : Option String

-- The result of `url.Parse` with the conditions on it.
unfoldable pub is_bad_url : Option Url → Bool
is_bad_url none = true
is_bad_url (some u) =
    u.host == ""
    || not (u.scheme == "http") && not (u.scheme == "https")
    || u.has_user
    || not (u.raw_query == "")
    || not (u.fragment == "")

unfoldable pub protocol_of : String → Option String
protocol_of p =
    if p == "anthropic"
    then some "anthropic"
    else if p == "openai-compatible"
    then some "openai"
    else none

unfoldable pub credential_of : Option SecretReference → Result Projection (Option (String × String))
credential_of none = ok none
credential_of (some r) = elim r.namespace [
  | some _ ↦ err unrepresentable
  | none ↦ ok (some (r.name, r.key))
]

unfoldable pub provider_of : (protocol provider_type : String) → String
provider_of protocol provider_type =
    if protocol == "openai" && provider_type == "" then "openai" else provider_type

unfoldable pub with_protocol : Route → Option String → Result Projection RouteSpec
with_protocol r none = err unrepresentable
with_protocol r (some protocol) =
    refuse_if (protocol == "anthropic" && not (r.provider_type == "")) unrepresentable
    >> credential_of r.credential_ref
    >>= (λ credential. ok (record {
      deployment_ref = "deployment";
      model_id = r.model_id;
      protocol = protocol;
      provider_type = provider_of protocol r.provider_type;
      enabled = r.enabled;
      endpoint = r.endpoint;
      model = r.upstream_model;
      credential_ref = credential;
      tenant_scope = none;
    }))

unfoldable pub route_spec : Codecs → Route → Result Projection RouteSpec
route_spec c r =
    refuse_if (is_bad_url (c.parse_url r.endpoint)) unrepresentable
    >> with_protocol r (protocol_of r.protocol)

abbrev pub Desired : Type 0
Desired = List (String × RouteSpec)

-- The tombstones of all older routes; one that cannot be represented is passed over.
unfoldable pub add_history : Codecs → List Route → Desired → Desired
add_history c [] desired = desired
add_history c (r ∷ rs) desired = elim (route_spec c (record r { enabled = false })) [
  | err _ ↦ add_history c rs desired
  | ok spec ↦ add_history c rs (insert r.model_id spec desired)
]

unfoldable pub add_current :
    Codecs → (seen : List String) → List Route → Desired → Result Projection Desired
add_current c seen [] desired = ok desired
add_current c seen (r ∷ rs) desired =
    refuse_if (any (λ id. id == r.model_id) seen) unrepresentable
    >> route_spec c r
    >>= (λ spec. add_current c (r.model_id ∷ seen) rs (insert r.model_id spec desired))

unfoldable pub read_snapshot : Codecs → PublicationDelivery → Result Projection InvalidationSnapshot
read_snapshot c d = elim (c.decode d.inputs.payload) [
  | none ↦ err unrepresentable
  | some current ↦
      refuse_if (not (current.revision == d.publication.revision)) unrepresentable
      >> refuse_if (not (c.digest (c.encode current) == d.publication.content_hash)) unrepresentable
      >> ok current
]

unfoldable pub read_history : Codecs → PublicationDelivery → Result Projection (List Route)
read_history c d = elim (c.decode_history d.inputs.historical_routes) [
  | none ↦ err unrepresentable
  | some history ↦ ok history
]

unfoldable pub desired_routes : Codecs → PublicationDelivery → Result Projection Desired
desired_routes c d =
    refuse_if (ltb d.publication.sequence 1) unrepresentable >> read_snapshot c d >>= (λ current.
      read_history c d >>= (λ history. add_current c [] current.routes (add_history c history [])))
