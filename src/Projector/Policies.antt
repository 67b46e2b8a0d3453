-- ===== src/Projector/Policies.antt =====
-- policies.go: `desiredPolicies`, which turns the limits of a publication into the policies of the
-- operator.
use agent_enterprise_protoco.Common.{
  ℕ, String, Bool, true, false, not, ◌&&◌, ◌||◌, Option, none, some, List, [], ◌∷◌, ltb,
  if◌then◌else◌, ◌==◌, nat_eq, string_eq,
}
use agent_enterprise_protoco.Common.Results.{Result, ok, err, refuse_if, ◌>>=◌, ◌>>◌}
use agent_enterprise_protoco.Common.Int.{ℤ}
use agent_enterprise_protoco.Common.Maps.{lookup, insert}
use agent_enterprise_protoco.Common.Text.{append}
use agent_enterprise_protoco.Policy.Limits.{Configuration, valid_id, valid}
use agent_enterprise_protoco.Publication.Selection.{Limit}
use agent_enterprise_protoco.Publication.Delivery.{PublicationDelivery}
use agent_enterprise_protoco.Publication.Relay.{Projection, unrepresentable}
use agent_enterprise_protoco.Projector.Routes.{Codecs, Desired, desired_routes}

pub record PolicySpec : Type 0 where
  pub target_kind : String
  pub target_name : String
  pub disabled : Bool
  pub rule_id : String
  pub rule_version : ℕ
  pub subject_type : String
  pub subject_id : String
  pub unit : String
  pub maximum : ℤ
  pub interval_seconds : ℕ
  -- What the projector never sets, such as the rate limits.
  pub has_more : Bool

abbrev pub Policies : Type 0
Policies = List (String × PolicySpec)

-- 0 stands for the zero value that an unknown interval leaves.
unfoldable pub interval_seconds : String → ℕ
interval_seconds interval =
    if interval == "second"
    then 1
    else if interval == "minute"
    then 60
    else if interval == "hour"
    then 3600
    else if interval == "day"
    then 86400
    else 0

unfoldable pub subject_id : Configuration → String
subject_id c = elim c.scope_id [ none ↦ "" | some id ↦ if c.scope_type == "model" then "" else id ]

unfoldable pub model_of : Configuration → Option String
model_of c = if c.scope_type == "model" then c.scope_id else c.model_id

unfoldable pub is_known : Desired → String → Bool
is_known routes id = elim (lookup id routes) [ none ↦ false | some _ ↦ true ]

-- The target of a rule: the deployment, or the route of its model.
unfoldable pub target_of :
    Desired → (enabled : Bool) → Option String → Result Projection (String × String)
target_of routes enabled none = ok ("DeploymentConfig", "deployment")
target_of routes enabled (some id) =
    refuse_if (not (is_known routes id) && enabled) unrepresentable
    >> ok ("ModelRoute", append "model-" id)

unfoldable pub policy_spec : Desired → Limit → Result Projection PolicySpec
policy_spec routes l =
    let c = l.configuration in
    target_of routes c.enabled (model_of c) >>= (λ (kind, name). ok (record {
      target_kind = kind;
      target_name = name;
      disabled = not c.enabled;
      rule_id = l.id;
      rule_version = l.version;
      subject_type = c.scope_type;
      subject_id = subject_id c;
      unit = c.kind;
      maximum = c.maximum;
      interval_seconds = interval_seconds c.interval;
      has_more = false;
    }))

unfoldable pub policy_name : Codecs → String → String
policy_name codecs id = append "limit-" (codecs.short_digest id)

unfoldable pub is_taken : Policies → String → Bool
is_taken desired name = elim (lookup name desired) [ none ↦ false | some _ ↦ true ]

unfoldable pub add_policies : Codecs → Desired → List Limit → Policies → Result Projection Policies
add_policies codecs routes [] desired = ok desired
add_policies codecs routes (l ∷ ls) desired =
    let name = policy_name codecs l.id in
    refuse_if (not (valid_id l.id) || ltb l.version 1 || not (valid l.configuration))
      unrepresentable
    >> refuse_if (is_taken desired name) unrepresentable
    >> policy_spec routes l
    >>= (λ spec. add_policies codecs routes ls (insert name spec desired))

unfoldable pub policies_of :
    Codecs → PublicationDelivery → Option (List Limit) → Result Projection (Option Policies)
policies_of codecs d none = ok none
policies_of codecs d (some limits) =
    desired_routes codecs d
    >>= (λ routes. add_policies codecs routes limits [] >>= (λ desired. ok (some desired)))

-- `none` is the nil map of a publication without limits.
unfoldable pub desired_policies : Codecs → PublicationDelivery → Result Projection (Option Policies)
desired_policies codecs d = elim (codecs.decode d.inputs.payload) [
  | none ↦ err unrepresentable
  | some captured ↦ policies_of codecs d captured.gateway_limits
]
