-- ===== src/Projector/Markers.antt =====
-- projector.go: `markers`, `checkMarker` and `mark`. `short_digest` stands for the hexadecimal of the
-- first sixteen bytes of a text's SHA-256. Of an object's labels and annotations there are those that
-- the projector reads or writes; an absent one is the empty text, as the source reads it.
use agent_enterprise_protoco.Common.{
  ℕ, String, Bool, not, ◌&&◌, ◌||◌, Option, none, some, ltb, if◌then◌else◌, ◌==◌, nat_eq, string_eq,
}
use agent_enterprise_protoco.Common.Results.{Result, ok, err, refuse_if, ◌>>◌}
use agent_enterprise_protoco.Common.Int.{ℤ, pos, negsuc}
use agent_enterprise_protoco.Publication.Tables.{Publication}
use agent_enterprise_protoco.Publication.Relay.{Projection, newer_exists, foreign_owner}
use agent_enterprise_protoco.Common.Decimal.{format_int, parse_int}

pub record Meta : Type 0 where
  pub name : String
  pub owner_label : String
  pub sequence : String
  pub operation_id : String
  pub content_hash : String
  pub revision : String
  pub audit_resource : String
  pub access_binding : String
  pub uid : ℕ
  pub deleting : Bool
  pub resource_version : ℕ

module _ (short_digest : String → String) (deployment_id : String) where
  abbrev pub owner : String
  owner = short_digest deployment_id

  -- The comparison of a parsed marker with the publication.
  unfoldable pub compare_marker : Meta → Publication → Option ℤ → Result Projection (Unit {0})
  compare_marker m item none = err foreign_owner
  compare_marker m item (some (negsuc n)) = err foreign_owner
  compare_marker m item (some (pos n)) =
      refuse_if (ltb n 1) foreign_owner
      >> refuse_if (ltb item.sequence n) newer_exists
      >> refuse_if
          (n == item.sequence
            && (not (m.operation_id == item.operation_id)
                || not (m.content_hash == item.content_hash)))
          foreign_owner

  unfoldable pub check_marker :
      Meta → Publication → (required : Bool) → Result Projection (Unit {0})
  check_marker m item required =
      if m.owner_label == "" && not required && m.sequence == ""
      then ok tt
      else refuse_if (not (m.owner_label == owner) || m.deleting) foreign_owner
        >> compare_marker m item (parse_int m.sequence)

  unfoldable pub mark : Publication → Meta → Meta
  mark item m = record m {
    owner_label = owner;
    sequence = format_int item.sequence;
    operation_id = item.operation_id;
    content_hash = item.content_hash;
    revision = item.revision;
    audit_resource = item.operation_id;
  }

-- `reflect.DeepEqual` on the metadata, of which `mark` changes these.
unfoldable pub same_meta : Meta → Meta → Bool
same_meta m n =
    m.owner_label == n.owner_label
    && m.sequence == n.sequence
    && m.operation_id == n.operation_id
    && m.content_hash == n.content_hash
    && m.revision == n.revision
    && m.audit_resource == n.audit_resource
