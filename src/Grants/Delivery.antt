-- ===== src/Grants/Delivery.antt =====
-- model_access_delivery.go: `ClaimModelAccessPublication`, `FinishModelAccessPublication` and
-- `IsLatestModelAccessPublication`; model_access_delivery_guard.go: `CheckModelAccessDelivery`, as
-- steps of the tables. A step that fails leaves them as they were. `is_uuid` stands for `uuid.Parse`,
-- `before` for the database's order of texts, `locked` for the streams that other transactions hold;
-- the token is a fresh UUID. A retry is a whole number of milliseconds, not negative.
use agent_enterprise_protoco.Common.{
  ℕ, String, Bool, true, false, not, ◌&&◌, ◌||◌, Option, none, some, List, [], ◌∷◌, ltb, leb,
  nat_beq, if◌then◌else◌, any, ◌==◌, nat_eq, string_eq,
}
use agent_enterprise_protoco.Common.Results.{Result, ok, err}
use Prim.Native.Char.{Char, code}
use Prim.Native.String
use agent_enterprise_protoco.Publication.Tables.{OutboxRow, update, affected, is_null, is_open}
use agent_enterprise_protoco.Publication.Delivery.{
  complete, is_unleased, take_lease, is_held, has_token, acknowledge, error_code,
}
use agent_enterprise_protoco.Grants.Tables.{
  Stream, ModelAccessPublication, AccessTables, is_last_of, is_last, latest_access,
}

pub data AccessError : Type 0 where
  claim_lost invalid_completion not_found : AccessError

pub record ModelAccessDelivery : Type 0 where
  pub publication : ModelAccessPublication
  pub claim_token : String

abbrev pub is_operation : String → ModelAccessPublication → Bool
is_operation id p = p.operation_id == id

abbrev pub is_row : String → OutboxRow → Bool
is_row id o = o.operation_id == id

-- What the query of a claim orders its rows by.
pub record Candidate : Type 0 where
  pub next_attempt_at : ℕ
  pub created_at : ℕ
  pub binding_key : String

unfoldable pub is_due : ℕ → ModelAccessPublication → OutboxRow → Bool
is_due now p o =
    is_row p.operation_id o
    && is_null o.completed_at
    && leb o.next_attempt_at now
    && is_unleased now o.lease_until

unfoldable pub is_waiting : (locked : String → Bool) → ModelAccessPublication → Stream → Bool
is_waiting locked p s = is_last_of p s && not (locked s.binding_key) && is_open p.phase

unfoldable pub due_rows :
    ℕ → ModelAccessPublication → List OutboxRow → List Candidate → List Candidate
due_rows now p [] others = others
due_rows now p (o ∷ os) others =
    let rest = due_rows now p os others in
    if is_due now p o
    then record {
      next_attempt_at = o.next_attempt_at;
      created_at = p.created_at;
      binding_key = p.binding_key;
    }
      ∷ rest
    else rest

unfoldable pub candidates :
    ℕ
    → (locked : String → Bool) → List Stream
    → List OutboxRow
    → List ModelAccessPublication
    → List Candidate
candidates now locked ss os [] = []
candidates now locked ss os (p ∷ ps) =
    let rest = candidates now locked ss os ps in
    if any (is_waiting locked p) ss then due_rows now p os rest else rest

unfoldable pub is_before : (before : String → String → Bool) → Candidate → Candidate → Bool
is_before before a b =
    ltb a.next_attempt_at b.next_attempt_at
    || nat_beq a.next_attempt_at b.next_attempt_at
      && (ltb a.created_at b.created_at
          || nat_beq a.created_at b.created_at && before a.binding_key b.binding_key)

unfoldable pub earlier :
    (before : String → String → Bool) → Candidate → Option Candidate → Candidate
earlier before a none = a
earlier before a (some b) = if is_before before b a then b else a

-- `ORDER BY … LIMIT 1`.
unfoldable pub first_candidate :
    (before : String → String → Bool) → List Candidate → Option Candidate
first_candidate before [] = none
first_candidate before (a ∷ rest) = some (earlier before a (first_candidate before rest))

-- An intent that is out of date fails for good.
unfoldable pub expire : ℕ → String → AccessTables → AccessTables
expire now id t = record t {
  publications =
      update (is_operation id)
        (λ p. record p { phase = "failed"; error_code = some "ACCESS_SNAPSHOT_EXPIRED" })
        t.publications;
  outbox = update (is_row id) (complete now) t.outbox;
}

abbrev pub projecting : ModelAccessPublication → ModelAccessPublication
projecting p = record p { phase = "projecting" }

unfoldable pub lease_access : ℕ → (token id : String) → AccessTables → AccessTables
lease_access now token id t = record t {
  publications = update (is_operation id) projecting t.publications;
  outbox = update (is_row id) (take_lease now token) t.outbox;
}

module _ (now : ℕ) (token : String) where
  abbrev pub ClaimedAccess : Type 0
  ClaimedAccess = Result AccessError (Option ModelAccessDelivery) × AccessTables

  unfoldable pub claim_value : ModelAccessPublication → AccessTables → ClaimedAccess
  claim_value p t =
      if not (ltb now p.valid_until) then (ok none, expire now p.operation_id t) else (
        ok (some (record { publication = projecting p; claim_token = token })),
        lease_access now token p.operation_id t,
      )

  unfoldable pub claim_binding : String → AccessTables → ClaimedAccess
  claim_binding binding_key t = elim (latest_access binding_key t) [
    | none ↦ (err not_found, t)
    | some p ↦ claim_value p t
  ]

  unfoldable pub claim_access :
      (before : String → String → Bool) (locked : String → Bool) → AccessTables → ClaimedAccess
  claim_access before locked t =
      elim (first_candidate before (candidates now locked t.streams t.outbox t.publications)) [
        | none ↦ (ok none, t)
        | some a ↦ claim_binding a.binding_key t
      ]

-- `^[A-Z][A-Z0-9_]{0,99}$`.
unfoldable pub is_capital : Char → Bool
is_capital c = leb b'A' (code c) && leb (code c) b'Z'

unfoldable pub is_code_tail : String → Bool
is_code_tail String.[] = true
is_code_tail (String.◌∷◌ c s) =
    (is_capital c || leb b'0' (code c) && leb (code c) b'9' || code c == b'_') && is_code_tail s

unfoldable pub is_error_code : String → Bool
is_error_code String.[] = false
is_error_code (String.◌∷◌ c s) = is_capital c && is_code_tail s && leb (String.count s) 99

abbrev pub longest_retry : ℕ
longest_retry = 3600000

unfoldable pub is_bad_completion : (phase code : String) → (retry_after : ℕ) → Bool
is_bad_completion phase code retry_after =
    not (phase == "") && not (phase == "projected") && not (phase == "failed")
    || phase == "failed" && not (is_error_code code)
    || not (phase == "failed") && not (code == "")
    || ltb longest_retry retry_after

-- The publication of an acknowledged row: it is being projected and not yet out of date.
unfoldable pub is_timely : ℕ → String → ModelAccessPublication → Bool
is_timely now id p = is_operation id p && p.phase == "projecting" && ltb now p.valid_until

unfoldable pub is_acknowledged :
    ℕ → List ModelAccessPublication → (id token : String) → OutboxRow → Bool
is_acknowledged now ps id token o =
    is_row id o
    && has_token token o.claim_token
    && is_held now o.lease_until
    && is_null o.completed_at
    && any (is_timely now id) ps

unfoldable pub finish_row :
    ℕ
    → (id token phase code : String) → (retry_after : ℕ) → AccessTables
    → Result AccessError (Unit {0}) × AccessTables
finish_row now id token phase code retry_after t =
    let acknowledged = is_acknowledged now t.publications id token in
    if not (affected acknowledged t.outbox == 1) then (err claim_lost, t) else (
      ok tt,
      record t {
        publications =
            update (is_operation id)
              (λ p. record p {
                phase = if phase == "" then "queued" else phase;
                error_code = error_code phase code;
              })
              t.publications;
        outbox = update acknowledged (acknowledge now phase retry_after) t.outbox;
      },
    )

unfoldable pub finish_access :
    (is_uuid : String → Bool)
    → ℕ
    → (id token phase code : String) → (retry_after : ℕ) → AccessTables
    → Result AccessError (Unit {0}) × AccessTables
finish_access is_uuid now id token phase code retry_after t =
    if not (is_uuid id) || not (is_uuid token)
    then (err claim_lost, t)
    else if is_bad_completion phase code retry_after
    then (err invalid_completion, t)
    else if not (any (λ p. is_operation id p && is_last t.streams p) t.publications)
    then (err claim_lost, t)
    else finish_row now id token phase code retry_after t

unfoldable pub is_latest_access :
    ℕ → (deployment_id : String) → ModelAccessPublication → AccessTables → Bool
is_latest_access now deployment_id value t =
    value.deployment_id == deployment_id
    && any
        (λ p.
          p.binding_key == value.binding_key
          && p.operation_id == value.operation_id
          && nat_beq p.sequence value.sequence
          && p.phase == "projected"
          && ltb now p.valid_until
          && is_last t.streams p)
        t.publications

-- The columns that a check compares.
unfoldable pub is_same_intent : ModelAccessPublication → ModelAccessPublication → Bool
is_same_intent value p =
    p.binding_key == value.binding_key
    && p.subject_id == value.subject_id
    && p.operation_id == value.operation_id
    && nat_beq p.sequence value.sequence
    && nat_beq p.source_version value.source_version
    && p.revision == value.revision
    && p.content_hash == value.content_hash
    && nat_beq p.issued_at value.issued_at
    && nat_beq p.valid_until value.valid_until

unfoldable pub is_leased : ℕ → (id token : String) → OutboxRow → Bool
is_leased now id token o =
    is_row id o
    && has_token token o.claim_token
    && is_null o.completed_at
    && is_held now o.lease_until

unfoldable pub is_checked : ℕ → ModelAccessDelivery → AccessTables → ModelAccessPublication → Bool
is_checked now d t p =
    is_same_intent d.publication p
    && p.phase == "projecting"
    && is_last t.streams p
    && any (is_leased now p.operation_id d.claim_token) t.outbox
    && leb p.issued_at now
    && ltb now p.valid_until

unfoldable pub check_delivery :
    (is_uuid : String → Bool)
    → ℕ
    → (deployment_id : String) → ModelAccessDelivery
    → AccessTables
    → Result AccessError (Unit {0})
check_delivery is_uuid now deployment_id d t =
    if not (d.publication.deployment_id == deployment_id)
    then err claim_lost
    else if not (is_uuid d.claim_token)
    then err claim_lost
    else if any (is_checked now d t) t.publications
    then ok tt
    else err claim_lost
