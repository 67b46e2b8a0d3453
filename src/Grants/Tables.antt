-- ===== src/Grants/Tables.antt =====
-- The tables of migration 053 for one deployment: the streams, one for each binding, the access
-- publications and their outbox; with model_access_publications.go: `LatestModelAccessPublication`.
-- Times are milliseconds.
use agent_enterprise_protoco.Common.{
  ℕ, String, Bool, ◌&&◌, Option, none, some, List, [], ◌∷◌, nat_beq, if◌then◌else◌, any, ◌==◌,
  nat_eq, string_eq,
}
use agent_enterprise_protoco.Publication.Tables.{OutboxRow}

pub record Stream : Type 0 where
  pub binding_key : String
  pub subject_id : String
  pub last_source_version : ℕ
  pub last_sequence : ℕ

pub record ModelAccessPublication : Type 0 where
  pub deployment_id : String
  pub binding_key : String
  pub subject_id : String
  pub operation_id : String
  pub sequence : ℕ
  pub source_version : ℕ
  pub revision : String
  pub content_hash : String
  pub payload : String
  pub issued_at : ℕ
  pub valid_until : ℕ
  pub phase : String
  pub error_code : Option String
  pub created_at : ℕ

pub record AccessTables : Type 0 where
  pub streams : List Stream
  pub publications : List ModelAccessPublication
  pub outbox : List OutboxRow

-- The join of a publication with the stream whose last intent it is.
unfoldable pub is_last_of : ModelAccessPublication → Stream → Bool
is_last_of p s = s.binding_key == p.binding_key && nat_beq s.last_sequence p.sequence

unfoldable pub is_last : List Stream → ModelAccessPublication → Bool
is_last ss p = any (is_last_of p) ss

unfoldable pub find_last :
    (binding_key : String)
    → List Stream
    → List ModelAccessPublication
    → Option ModelAccessPublication
find_last binding_key ss [] = none
find_last binding_key ss (p ∷ ps) =
    let rest = find_last binding_key ss ps in
    if p.binding_key == binding_key && is_last ss p then some p else rest

unfoldable pub latest_access : String → AccessTables → Option ModelAccessPublication
latest_access binding_key t = find_last binding_key t.streams t.publications
