-- ===== src/Publication/Delivery.antt =====
-- publication_delivery.go: `ClaimDataPlanePublication` and `FinishDataPlanePublication`, as steps of
-- the tables. A step that fails leaves them as they were, as the transaction does. `inputs` stands
-- for `publicationInputs`, whose queries read the snapshots; the token is a fresh UUID.
use agent_enterprise_protoco.Common.{
  ℕ, ◌+◌, String, Bool, true, false, not, ◌&&◌, ◌||◌, Option, none, some, List, ltb, leb,
  if◌then◌else◌, any, ◌==◌, nat_eq, string_eq,
}
use agent_enterprise_protoco.Common.Results.{Result, ok, err}
use agent_enterprise_protoco.Publication.Tables.{
  Publication, OutboxRow, Tables, update, affected, is_null, is_open, latest,
}

pub data DeliveryError : Type 0 where
  claim_lost invalid_phase missing_inputs : DeliveryError

pub record Inputs : Type 0 where
  pub payload : String
  pub historical_routes : String

pub record PublicationDelivery : Type 0 where
  pub publication : Publication
  pub claim_token : String
  pub inputs : Inputs

-- 30 seconds
abbrev pub lease : ℕ
lease = 30000

unfoldable pub supersede : ℕ → List Publication → List Publication
supersede sequence =
    update (λ p. ltb p.sequence sequence && is_open p.phase)
      (λ p. record p { phase = "superseded" })

unfoldable pub is_superseded : List Publication → String → Bool
is_superseded ps operation_id =
    any (λ p. p.operation_id == operation_id && p.phase == "superseded") ps

unfoldable pub is_retired : List Publication → OutboxRow → Bool
is_retired ps o = is_superseded ps o.operation_id && is_null o.completed_at

unfoldable pub complete : ℕ → OutboxRow → OutboxRow
complete now o = record o { completed_at = some now; claim_token = none; lease_until = none }

-- Superseded intents leave the outbox.
unfoldable pub retire : ℕ → List Publication → List OutboxRow → List OutboxRow
retire now ps = update (is_retired ps) (complete now)

unfoldable pub is_unleased : ℕ → Option ℕ → Bool
is_unleased now none = true
is_unleased now (some t) = leb t now

unfoldable pub is_claimable : ℕ → String → OutboxRow → Bool
is_claimable now operation_id o =
    o.operation_id == operation_id
    && is_null o.completed_at
    && leb o.next_attempt_at now
    && is_unleased now o.lease_until

unfoldable pub take_lease : ℕ → String → OutboxRow → OutboxRow
take_lease now token o = record o {
  claim_token = some token;
  lease_until = some (now + lease);
  attempts = o.attempts + 1;
}

unfoldable pub set_phase : String → String → Option String → List Publication → List Publication
set_phase operation_id phase error_code =
    update (λ p. p.operation_id == operation_id)
      (λ p. record p { phase = phase; error_code = error_code })

unfoldable pub project : String → List Publication → List Publication
project operation_id =
    update (λ p. p.operation_id == operation_id) (λ p. record p { phase = "projecting" })

-- The older intents are given up, and those given up leave the outbox.
unfoldable pub sweep : ℕ → Publication → Tables → Tables
sweep now p s =
    let ps = supersede p.sequence s.publications in
    record { publications = ps; outbox = retire now ps s.outbox }

module _ (inputs : Publication → Option Inputs) (now : ℕ) (token : String) where
  abbrev pub Claimed : Type 0
  Claimed = Result DeliveryError (Option PublicationDelivery) × Tables

  -- The rest of the transaction once the outbox row is leased.
  unfoldable pub deliver : Publication → Tables → Tables → Claimed
  deliver p before s = elim (inputs p) [
    | none ↦ (err missing_inputs, before)
    | some i ↦ (
      ok (
          some (record {
            publication = record p { phase = "projecting" };
            claim_token = token;
            inputs = i;
          })),
      record {
        publications = project p.operation_id s.publications;
        outbox = update (is_claimable now p.operation_id) (take_lease now token) s.outbox;
      },
    )
  ]

  unfoldable pub claim_latest : Publication → Tables → Claimed
  claim_latest p s =
      let swept = sweep now p s in
      if not (is_open p.phase)
      then (ok none, swept)
      else if affected (is_claimable now p.operation_id) swept.outbox == 0
      then (ok none, swept)
      else deliver p s swept

  -- `locked` is the answer of `pg_try_advisory_xact_lock`.
  unfoldable pub claim_publication : Bool → Tables → Claimed
  claim_publication locked s =
      if not locked
      then (ok none, s)
      else elim (latest s.publications) [ none ↦ (ok none, s) | some p ↦ claim_latest p s ]

unfoldable pub is_terminal : String → Bool
is_terminal phase = phase == "projected" || phase == "failed" || phase == "superseded"

-- The condition on the publication that an acknowledged outbox row belongs to.
unfoldable pub has_newer : List Publication → ℕ → Bool
has_newer ps sequence = any (λ newer. ltb sequence newer.sequence) ps

unfoldable pub is_current : List Publication → String → Bool
is_current ps operation_id =
    any
      (λ p.
        p.operation_id == operation_id && p.phase == "projecting" && not (has_newer ps p.sequence))
      ps

unfoldable pub is_held : ℕ → Option ℕ → Bool
is_held now none = false
is_held now (some t) = ltb now t

unfoldable pub has_token : String → Option String → Bool
has_token token none = false
has_token token (some t) = t == token

unfoldable pub is_owned : ℕ → List Publication → (operation_id token : String) → OutboxRow → Bool
is_owned now ps operation_id token o =
    o.operation_id == operation_id
    && has_token token o.claim_token
    && is_held now o.lease_until
    && is_null o.completed_at
    && is_current ps operation_id

unfoldable pub acknowledge : ℕ → String → ℕ → OutboxRow → OutboxRow
acknowledge now phase retry_after o = record o {
  claim_token = none;
  lease_until = none;
  next_attempt_at = now + retry_after;
  completed_at = if phase == "" then none else some now;
}

unfoldable pub error_code : String → String → Option String
error_code phase code = if phase == "failed" then some code else none

unfoldable pub finish_publication :
    ℕ
    → (operation_id token phase code : String) → (retry_after : ℕ) → Tables
    → Result DeliveryError (Unit {0}) × Tables
finish_publication now operation_id token phase code retry_after s =
    let owned = is_owned now s.publications operation_id token in
    if not (phase == "") && not (is_terminal phase)
    then (err invalid_phase, s)
    else if not (affected owned s.outbox == 1)
    then (err claim_lost, s)
    else (
      ok tt,
      record {
        publications =
            set_phase operation_id (if phase == "" then "queued" else phase) (error_code phase code)
              s.publications;
        outbox = update owned (acknowledge now phase retry_after) s.outbox;
      },
    )
