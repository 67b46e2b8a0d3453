-- ===== src/Projector/Grant.antt =====
-- access_projector.go: `accessMarkers` and `desiredAccess`, which turns an access publication into the
-- grant that the gateway's operator reads. Times are nanoseconds, 0 for Go's zero time. The codec of
-- the snapshots and SHA-256 are those of Access; `is_uuid` stands for the parse of an operation's
-- identifier and its comparison with the canonical text, `binding_key` for `BindingKey`'s digest.
use agent_enterprise_protoco.Common.{
  ℕ, ◌-◌, ◌%◌, String, Bool, not, ◌||◌, Option, none, List, ltb, leb, ◌==◌, nat_eq, string_eq,
}
use agent_enterprise_protoco.Common.Results.{Result, ok, err, refuse_if, ◌>>◌}
use Prim.Native.String.{len}
use agent_enterprise_protoco.Access.Snapshot.{
  Subject, Binding, License, WorkloadEntitlement, Snapshot, decode,
}
use agent_enterprise_protoco.Publication.Tables.{Publication}
use agent_enterprise_protoco.Publication.Relay.{Projection, unrepresentable}

pub record ModelAccessDelivery : Type 0 where
  pub deployment_id : String
  pub subject_id : String
  pub binding_key : String
  pub sequence : ℕ
  pub operation_id : String
  pub revision : String
  pub content_hash : String
  pub payload : String
  pub issued_at : ℕ
  pub valid_until : ℕ

pub record GrantSpec : Type 0 where
  pub deployment_id : String
  pub subject : Subject
  pub binding : Binding
  pub sequence : ℕ
  pub operation_id : String
  pub revision : String
  pub content_hash : String
  pub issued_at : ℕ
  pub valid_until : ℕ
  pub disabled : Bool
  pub models : Option (List String)
  pub licenses : List License
  pub role_ids : List String
  pub team_ids : List String
  pub workload_entitlement : Option WorkloadEntitlement

pub record AccessCodecs : Type 0 where
  pub marshal : Snapshot → String
  pub unmarshal : String → Option Snapshot
  pub hex_sha256 : String → String
  pub is_uuid : String → Bool
  pub binding_key : Snapshot → String
  pub short_digest : String → String

abbrev pub second : ℕ
second = 1000000000

abbrev pub hour : ℕ
hour = 3600000000000

-- `!ValidUntil.After(IssuedAt)` and the other conditions on the times.
unfoldable pub has_bad_times : ModelAccessDelivery → Bool
has_bad_times item =
    item.issued_at == 0
    || leb item.valid_until item.issued_at
    || ltb hour (item.valid_until - item.issued_at)
    || not (item.issued_at % second == 0)
    || not (item.valid_until % second == 0)

unfoldable pub has_bad_names : AccessCodecs → ModelAccessDelivery → Bool
has_bad_names codecs item =
    not (codecs.is_uuid item.operation_id)
    || ltb item.sequence 1
    || item.revision == ""
    || ltb 200 (len item.revision)

-- Whether the policy is not the one that the publication is for.
unfoldable pub is_other_policy : AccessCodecs → ModelAccessDelivery → Snapshot → Bool
is_other_policy codecs item policy =
    not (item.subject_id == policy.subject.id)
    || not (item.deployment_id == policy.deployment_id)
    || not (item.binding_key == codecs.binding_key policy)

unfoldable pub grant_of : ModelAccessDelivery → Snapshot → GrantSpec
grant_of item policy = record {
  deployment_id = policy.deployment_id;
  subject = policy.subject;
  binding = policy.binding;
  sequence = item.sequence;
  operation_id = item.operation_id;
  revision = item.revision;
  content_hash = item.content_hash;
  issued_at = item.issued_at;
  valid_until = item.valid_until;
  disabled = policy.disabled;
  models = policy.models;
  licenses = policy.licenses;
  role_ids = policy.role_ids;
  team_ids = policy.team_ids;
  workload_entitlement = policy.workload_entitlement;
}

unfoldable pub desired_access : AccessCodecs → ModelAccessDelivery → Result Projection GrantSpec
desired_access codecs item =
    elim (decode codecs.marshal codecs.unmarshal codecs.hex_sha256 item.payload item.content_hash) [
      | err _ ↦ err unrepresentable
      | ok policy ↦
          refuse_if (has_bad_names codecs item) unrepresentable
          >> refuse_if (is_other_policy codecs item policy) unrepresentable
          >> refuse_if (has_bad_times item) unrepresentable
          >> ok (grant_of item policy)
    ]

-- What the markers of a grant are compared with and written from.
unfoldable pub access_markers : ModelAccessDelivery → Publication
access_markers item = record {
  operation_id = item.operation_id;
  sequence = item.sequence;
  idempotency_key_hash = "";
  request_hash = "";
  revision = item.revision;
  content_hash = item.content_hash;
  phase = "";
  error_code = none;
}
