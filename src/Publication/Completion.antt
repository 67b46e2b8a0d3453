-- ===== src/Publication/Completion.antt =====
-- What an acknowledgement by `FinishDataPlanePublication` of publication_delivery.go establishes.
use agent_enterprise_protoco.Common.{ℕ, ◌≤◌, ◌<◌, String, ◌≡◌, refl, ap, ◌≢◌, ◌⊎◌, inl, inr, Bool, true, false, not, ◌&&◌, Option, none, some, List, [], ◌∷◌, arith, eq_iff, Bool-cases, any, All, ◌==◌, nat_eq, string_eq, In, any-In}
use agent_enterprise_protoco.Common.Results.{ok, err}
use agent_enterprise_protoco.Publication.Tables.{Publication, OutboxRow, Tables, affected, is_null}
use agent_enterprise_protoco.Publication.Latest.{affected-In, affected_none}
use agent_enterprise_protoco.Publication.Delivery.{
  claim_lost, invalid_phase, is_terminal, has_newer, is_current, is_held, has_token, is_owned,
  finish_publication,
}

-- The operation's own worker, within its lease, with the newest of all intents.
pub record IsOwner (now : ℕ) (operation_id token : String) (s : Tables) : Type 0 where
  pub row : OutboxRow
  pub row_in : In row s.outbox
  pub row_operation : row.operation_id ≡ operation_id
  pub row_token : row.claim_token ≡ some token
  pub row_lease : (t : ℕ) × (row.lease_until ≡ some t) × (now < t)
  pub row_pending : row.completed_at ≡ none
  pub intent : Publication
  pub intent_in : In intent s.publications
  pub intent_operation : intent.operation_id ≡ operation_id
  pub intent_projecting : intent.phase ≡ "projecting"
  pub intent_newest : All (λ q. q.sequence ≤ intent.sequence) s.publications

pub has_token-eq :
    (token : String) (found : Option String) → has_token token found ≡ true → found ≡ some token
unfolding has_token
has_token-eq token none h = cc
has_token-eq token (some t) h = ap some ((eq_iff t token).0 h)

pub is_held-eq :
    (now : ℕ) (found : Option ℕ) → is_held now found ≡ true → (t : ℕ) × (found ≡ some t) × (now < t)
unfolding is_held
is_held-eq now none h = cc
is_held-eq now (some t) h = (t, refl, ground arith)

pub is_null-eq : {A : Type 0} (found : Option A) → is_null found ≡ true → found ≡ none
is_null-eq none h = refl
is_null-eq (some a) h = cc

none_newer :
    (ps : List Publication) (sequence : ℕ)
    → has_newer ps sequence ≡ false
    → All (λ q. q.sequence ≤ sequence) ps
unfolding has_newer
none_newer [] sequence h = tt
none_newer (p ∷ ps) sequence h = (ground arith, none_newer ps sequence (ground arith))

owned-IsOwner :
    (now : ℕ) (operation_id token : String) (s : Tables) (row : OutboxRow)
    → In row s.outbox
    → is_owned now s.publications operation_id token row ≡ true
    → IsOwner now operation_id token s
unfolding is_owned is_current
owned-IsOwner now operation_id token s row i h =
    let (intent, j, k) =
      any-In
        (λ p.
          p.operation_id == operation_id
          && p.phase == "projecting"
          && not (has_newer s.publications p.sequence))
        s.publications (ground arith) in
    record {
      row = row;
      row_in = i;
      row_operation = ground (arith, eq_iff row.operation_id operation_id);
      row_token = has_token-eq token row.claim_token (ground arith);
      row_lease = is_held-eq now row.lease_until (ground arith);
      row_pending = is_null-eq row.completed_at (ground arith);
      intent = intent;
      intent_in = j;
      intent_operation = ground (arith, eq_iff intent.operation_id operation_id);
      intent_projecting = ground (arith, eq_iff intent.phase "projecting");
      intent_newest = none_newer s.publications intent.sequence (ground arith);
    }

-- Only the owner acknowledges: a delivery that is finished, for good or to be tried again, is
-- finished with the token and within the lease of its outbox row, which is not complete, while its
-- publication is being projected and is the newest of the deployment.
pub finish-IsOwner :
    (now : ℕ) (operation_id token phase code : String) (retry_after : ℕ) (s s' : Tables)
    → finish_publication now operation_id token phase code retry_after s ≡ (ok tt, s')
    → IsOwner now operation_id token s
unfolding finish_publication
finish-IsOwner now operation_id token phase code retry_after s s' h =
    let owned = is_owned now s.publications operation_id token in
    let some_row : affected owned s.outbox ≢ 0 = λ e. ground (arith, e) in
    let (row, i, e) = affected-In owned s.outbox some_row in
    owned-IsOwner now operation_id token s row i e

-- Whether an intent is not the operation's, or has a newer one beside it.
abbrev IsOutdated : String → ℕ → Publication → Type 0
IsOutdated operation_id sequence p =
    ((p.operation_id == operation_id) ≡ false) ⊎ (p.sequence < sequence)

In-has_newer :
    (new : Publication) (ps : List Publication) (sequence : ℕ)
    → In new ps
    → sequence < new.sequence
    → has_newer ps sequence ≡ true
unfolding has_newer
In-has_newer new [] sequence i h = absurd i
In-has_newer new (p ∷ ps) sequence (inl same) h =
    let equal = ap (λ (x : Publication). x.sequence) same in ground (arith, equal)
In-has_newer new (p ∷ ps) sequence (inr i) h = ground (arith, In-has_newer new ps sequence i h)

not_current :
    (operation_id : String) (new : Publication) (all_ps ps : List Publication)
    → In new all_ps
    → All (IsOutdated operation_id new.sequence) ps
    → any
        (λ p.
          p.operation_id == operation_id
          && p.phase == "projecting"
          && not (has_newer all_ps p.sequence))
        ps
      ≡ false
not_current operation_id new all_ps [] i h = refl
not_current operation_id new all_ps (p ∷ ps) i (inl other, h) =
    ground (arith, not_current operation_id new all_ps ps i h)
not_current operation_id new all_ps (p ∷ ps) i (inr older, h) =
    ground (
      arith,
      not_current operation_id new all_ps ps i h,
      In-has_newer new all_ps p.sequence i older,
    )

never_owned :
    (now : ℕ) (operation_id token : String) (ps : List Publication)
    → is_current ps operation_id ≡ false
    → (rows : List OutboxRow) → All (λ o. is_owned now ps operation_id token o ≡ false) rows
unfolding is_owned
never_owned now operation_id token ps stale [] = tt
never_owned now operation_id token ps stale (o ∷ rows) =
    (ground (arith, stale), never_owned now operation_id token ps stale rows)

-- A newer intent fences off every older delivery: once there is one that is newer than all intents
-- of the operation, no acknowledgement of the operation succeeds, with any token and at any time, and
-- none changes the tables.
pub finish_fenced :
    (now : ℕ) (operation_id token phase code : String) (retry_after : ℕ) (s : Tables)
    (new : Publication)
    → In new s.publications
    → All (IsOutdated operation_id new.sequence) s.publications
    → let (result, s') = finish_publication now operation_id token phase code retry_after s in
      (s' ≡ s) × ((result ≡ err claim_lost) ⊎ (result ≡ err invalid_phase))
unfolding finish_publication
finish_fenced now operation_id token phase code retry_after s new i h =
    let stale : is_current s.publications operation_id ≡ false =
      unfold is_current in not_current operation_id new s.publications s.publications i h in
    let owned = is_owned now s.publications operation_id token in
    let no_row : affected owned s.outbox ≡ 0 =
      affected_none owned s.outbox
        (never_owned now operation_id token s.publications stale s.outbox) in
    elim (Bool-cases (not (phase == "") && not (is_terminal phase))) [
      | inl bad ↦ rw bad (refl, inr refl)
      | inr good ↦ rw (good, no_row) (refl, inl refl)
    ]
