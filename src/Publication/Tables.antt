-- ===== src/Publication/Tables.antt =====
-- The tables behind publication_delivery.go, for one deployment: `DataPlanePublication` and the
-- outbox, with SQL's UPDATE on them. Times are milliseconds.
use agent_enterprise_protoco.Common.{
  ℕ, String, Bool, true, false, ◌||◌, Option, none, some, List, [], ◌∷◌, ltb, if◌then◌else◌, length,
  filter, ◌==◌, nat_eq, string_eq,
}

pub record Publication : Type 0 where
  pub operation_id : String
  pub sequence : ℕ
  pub idempotency_key_hash : String
  pub request_hash : String
  pub revision : String
  pub content_hash : String
  pub phase : String
  pub error_code : Option String

pub record OutboxRow : Type 0 where
  pub operation_id : String
  pub claim_token : Option String
  pub lease_until : Option ℕ
  pub attempts : ℕ
  pub next_attempt_at : ℕ
  pub completed_at : Option ℕ

pub record Tables : Type 0 where
  pub publications : List Publication
  pub outbox : List OutboxRow

-- `UPDATE … SET … WHERE …`: the rows that the test selects are changed.
unfoldable pub update : {R : Type 0} → (R → Bool) → (R → R) → List R → List R
update test change [] = []
update test change (row ∷ rows) = (if test row then change row else row) ∷ update test change rows

-- `RowsAffected`.
unfoldable pub affected : {R : Type 0} → (R → Bool) → List R → ℕ
affected test rows = length (filter test rows)

abbrev pub is_null : {A : Type 0} → Option A → Bool
is_null none = true
is_null (some _) = false

-- `WHERE phase IN ('queued','projecting')`.
abbrev pub is_open : String → Bool
is_open phase = phase == "queued" || phase == "projecting"

unfoldable pub newer : Publication → Option Publication → Publication
newer p none = p
newer p (some q) = if ltb p.sequence q.sequence then q else p

-- `ORDER BY sequence DESC` with `Take`: the intent with the greatest sequence.
unfoldable pub latest : List Publication → Option Publication
latest [] = none
latest (p ∷ ps) = some (newer p (latest ps))
