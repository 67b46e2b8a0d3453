-- ===== src/Publication/Agreement.antt =====
-- What a publication and its outbox row say of each other, and that the transactions of
-- publication_delivery.go keep it.
use agent_enterprise_protoco.Common.{
  ℕ, String, ◌≡◌, refl, sym, ap, ◌∙◌, ◌≢◌, ◌⊎◌, inl, inr, Bool, true, false, not, ◌&&◌, ◌||◌, none,
  some, List, arith, eq_iff, ltb, if◌then◌else◌, Bool-cases, All, ◌==◌, nat_eq, string_eq,
}
use agent_enterprise_protoco.Publication.Tables.{
  Publication, OutboxRow, update, affected, is_null, is_open,
}
use agent_enterprise_protoco.Publication.Latest.{IsKeyed, changed}
use agent_enterprise_protoco.Publication.Pairing.{
  Paired, IsSame, Paired-map, pair_both, pair_rows, Paired-update, pair_left, pair_right,
  Paired-any, keyed_test,
}
use agent_enterprise_protoco.Publication.Delivery.{
  supersede, retire, is_superseded, is_retired, complete, is_claimable, take_lease, project,
  is_terminal, set_phase, is_owned, acknowledge, error_code,
}

-- The phase is one of the five of migration 046, and has an error code exactly when it is "failed";
-- the row is open exactly while the phase is; only a projecting publication is leased.
pub record Agrees (p : Publication) (o : OutboxRow) : Type 0 where
  pub same_operation : p.operation_id ≡ o.operation_id
  pub named : (is_open p.phase || is_terminal p.phase) ≡ true
  pub coded : (p.phase == "failed") ≡ not (is_null p.error_code)
  pub pending : is_open p.phase ≡ is_null o.completed_at
  pub held : (is_null o.claim_token || p.phase == "projecting") ≡ true
  pub leased : is_null o.claim_token ≡ is_null o.lease_until

-- A publication just given up, whose row is still open.
record IsAbandoned (p : Publication) (o : OutboxRow) : Type 0 where
  same_operation : p.operation_id ≡ o.operation_id
  given_up : p.phase ≡ "superseded"
  uncoded : is_null p.error_code ≡ true
  still_open : is_null o.completed_at ≡ true

Loose : Publication → OutboxRow → Type 0
Loose p o = Agrees p o ⊎ IsAbandoned p o

superseded_phase : (phase : String) → phase ≡ "superseded" → is_open phase ≡ false
superseded_phase phase h = rw h refl

pub open-cases :
    (phase : String) → is_open phase ≡ true → (phase ≡ "queued") ⊎ (phase ≡ "projecting")
open-cases phase h = elim (Bool-cases (phase == "queued")) [
  | inl e ↦ inl ((eq_iff phase "queued").0 e)
  | inr e ↦
      let rest : (phase == "projecting") ≡ true = rw e at h in
      inr ((eq_iff phase "projecting").0 rest)
]

open_phase : (phase : String) → is_open phase ≡ true → (phase == "failed") ≡ false
open_phase phase h = elim (open-cases phase h) [ inl e ↦ rw e refl | inr e ↦ rw e refl ]

module _ (sequence : ℕ) where
  abbrev is_older : Publication → Bool
  is_older p = ltb p.sequence sequence && is_open p.phase

  abbrev give_up : Publication → Publication
  give_up p = record p { phase = "superseded" }

  supersede-Loose :
      (p : Publication) (o : OutboxRow) → Agrees p o → Loose (changed is_older give_up p) o
  unfolding Loose
  supersede-Loose p o a = elim (Bool-cases (is_older p)) [
    | inl older ↦
        let is_open_phase : is_open p.phase ≡ true = ground (arith, older) in
        rw older (
          inr (record {
            same_operation = a.same_operation;
            given_up = refl;
            uncoded = ground (arith, a.coded, open_phase p.phase is_open_phase);
            still_open = sym a.pending ∙ is_open_phase;
          }))
    | inr kept ↦ rw kept (inl a)
  ]

Loose-IsSame : (p : Publication) (o : OutboxRow) → Loose p o → IsSame p o
unfolding Loose
Loose-IsSame p o (inl a) = a.same_operation
Loose-IsSame p o (inr b) = b.same_operation

retire-Agrees :
    (now : ℕ) (ps : List Publication) (p : Publication) (o : OutboxRow)
    → Loose p o × (is_superseded ps o.operation_id ≡ (p.phase == "superseded"))
    → Agrees p (changed (is_retired ps) (complete now) o)
unfolding Loose is_retired complete is_terminal
retire-Agrees now ps p o (inl a, e) = elim (Bool-cases (p.phase == "superseded")) [
  | inl given_up ↦
      let closed : is_null o.completed_at ≡ false =
        sym a.pending ∙ superseded_phase p.phase ((eq_iff p.phase "superseded").0 given_up) in
      let kept : is_retired ps o ≡ false =
        unfold is_retired in ground (arith, e, given_up, closed) in
      rw kept a
  | inr other ↦
      let kept : is_retired ps o ≡ false = unfold is_retired in ground (arith, e, other) in
      rw kept a
]
retire-Agrees now ps p o (inr b, e) =
    let hit : is_retired ps o ≡ true =
      unfold is_retired in
      ground (arith, e, b.still_open, (eq_iff p.phase "superseded").1 b.given_up) in
    rw hit (record {
      same_operation = b.same_operation;
      named = rw b.given_up refl;
      coded = ap (λ x. x == "failed") b.given_up ∙ sym (ap not b.uncoded);
      pending = superseded_phase p.phase b.given_up;
      held = refl;
      leased = refl;
    })

-- The transaction's first part keeps the agreement.
pub sweep-Agrees :
    (now sequence : ℕ) (ps : List Publication) (os : List OutboxRow)
    → IsKeyed os
    → Paired Agrees ps os
    → Paired Agrees (supersede sequence ps) (retire now (supersede sequence ps) os)
unfolding supersede retire
sweep-Agrees now sequence ps os keyed h =
    let ps' = update (is_older sequence) (give_up sequence) ps in
    let loose =
      pair_left Agrees Loose (is_older sequence) (give_up sequence) (supersede-Loose sequence) ps os
        h in
    let same = Paired-map Loose IsSame (λ p o. Loose-IsSame p o) ps' os loose in
    let own = Paired-any (λ q. q.phase == "superseded") ps' os same keyed in
    pair_right _ Agrees (is_retired ps') (complete now) (λ p o. retire-Agrees now ps' p o) ps' os
      (pair_both Loose _ ps' os loose (unfold is_superseded in own))

-- The row of an operation, where there is one that can be claimed, is that one.
pub claimed_rows :
    (now : ℕ) (k : String) (os : List OutboxRow)
    → IsKeyed os
    → affected (is_claimable now k) os ≢ 0
    → All (λ o. is_claimable now k o ≡ (o.operation_id == k)) os
claimed_rows now k os =
    keyed_test k (is_claimable now k) (λ o hit. unfold is_claimable in ground (arith, hit)) os

-- The same of the row that an acknowledgement needs.
pub owned_rows :
    (now : ℕ) (all_ps : List Publication) (k token : String) (os : List OutboxRow)
    → IsKeyed os
    → affected (is_owned now all_ps k token) os ≢ 0
    → All (λ o. is_owned now all_ps k token o ≡ (o.operation_id == k)) os
owned_rows now all_ps k token os =
    keyed_test k (is_owned now all_ps k token) (λ o hit. unfold is_owned in ground (arith, hit)) os

module _ (now : ℕ) (k : String) where
  leased-Agrees :
      (token : String) (p : Publication) (o : OutboxRow)
      → Agrees p o × (is_claimable now k o ≡ (o.operation_id == k))
      → Agrees
          (changed (λ q. q.operation_id == k) (λ q. record q { phase = "projecting" }) p)
          (changed (is_claimable now k) (take_lease now token) o)
  unfolding take_lease is_terminal
  leased-Agrees token p o (a, e) = elim (Bool-cases (o.operation_id == k)) [
    | inl same ↦
        let hit : is_claimable now k o ≡ true = e ∙ same in
        let mine : (p.operation_id == k) ≡ true = ap (λ x. x == k) a.same_operation ∙ same in
        let free : is_null o.completed_at ≡ true = unfold is_claimable in ground (arith, hit) in
        let uncoded : false ≡ not (is_null p.error_code) =
          sym (open_phase p.phase (a.pending ∙ free)) ∙ a.coded in
        rw (hit, mine)
          (record {
            same_operation = a.same_operation;
            named = refl;
            coded = uncoded;
            pending = sym free;
            held = refl;
            leased = refl;
          })
    | inr other ↦
        let missed : is_claimable now k o ≡ false = e ∙ other in
        let apart : (p.operation_id == k) ≡ false = ap (λ x. x == k) a.same_operation ∙ other in
        rw (missed, apart) a
  ]

  pub lease-Agrees :
      (token : String) (ps : List Publication) (os : List OutboxRow)
      → IsKeyed os
      → affected (is_claimable now k) os ≢ 0
      → Paired Agrees ps os
      → Paired Agrees (project k ps) (update (is_claimable now k) (take_lease now token) os)
  unfolding project
  lease-Agrees token ps os keyed some_row h =
      let own = claimed_rows now k os keyed some_row in
      Paired-update _ Agrees (λ q. q.operation_id == k) (λ q. record q { phase = "projecting" })
        (is_claimable now k) (take_lease now token) (λ p o. leased-Agrees token p o) ps os
        (pair_both Agrees _ ps os h
          (pair_rows Agrees (λ o. is_claimable now k o ≡ (o.operation_id == k)) ps os h own))

-- The phase that an acknowledgement leaves.
abbrev pub next_phase : String → String
next_phase phase = if phase == "" then "queued" else phase

pub fitting-cases :
    (phase : String)
    → (phase == "" || is_terminal phase) ≡ true
    → ((phase ≡ "") ⊎ (phase ≡ "projected")) ⊎ ((phase ≡ "failed") ⊎ (phase ≡ "superseded"))
unfolding is_terminal
fitting-cases phase h = elim (Bool-cases (phase == "")) [
  | inl e ↦ inl (inl ((eq_iff phase "").0 e))
  | inr empty ↦ elim (Bool-cases (phase == "projected")) [
    | inl e ↦ inl (inr ((eq_iff phase "projected").0 e))
    | inr other ↦ elim (Bool-cases (phase == "failed")) [
      | inl e ↦ inr (inl ((eq_iff phase "failed").0 e))
      | inr e ↦
          let rest : (phase == "superseded") ≡ true = rw (empty, other, e) at h in
          inr (inr ((eq_iff phase "superseded").0 rest))
    ]
  ]
]

-- What the phase says after the acknowledgement, of the error code and of the completion.
abbrev IsSettled : ℕ → (code phase : String) → Type 0
IsSettled now code phase =
    ((is_open (next_phase phase) || is_terminal (next_phase phase)) ≡ true)
    × ((next_phase phase == "failed") ≡ not (is_null (error_code phase code)))
    × (is_open (next_phase phase) ≡ is_null (if phase == "" then none else some now))

fitting-IsSettled :
    (now : ℕ) (code phase : String)
    → (phase == "" || is_terminal phase) ≡ true
    → IsSettled now code phase
unfolding is_terminal error_code
fitting-IsSettled now code phase h = elim (fitting-cases phase h) [
  | inl (inl e) ↦ rw e (refl, refl, refl)
  | inl (inr e) ↦ rw e (refl, refl, refl)
  | inr (inl e) ↦ rw e (refl, refl, refl)
  | inr (inr e) ↦ rw e (refl, refl, refl)
]

-- An acknowledgement: its phase is a terminal one, or the empty one of a retry.
module _ (now : ℕ) (k token phase code : String) (retry_after : ℕ) (all_ps : List Publication)
    (fits : (phase == "" || is_terminal phase) ≡ true) where
  acknowledged-Agrees :
      (p : Publication) (o : OutboxRow)
      → Agrees p o × (is_owned now all_ps k token o ≡ (o.operation_id == k))
      → Agrees
          (changed
            (λ q. q.operation_id == k)
            (λ q. record q { phase = next_phase phase; error_code = error_code phase code })
            p)
          (changed (is_owned now all_ps k token) (acknowledge now phase retry_after) o)
  unfolding acknowledge
  acknowledged-Agrees p o (a, e) = elim (Bool-cases (o.operation_id == k)) [
    | inl same ↦
        let hit : is_owned now all_ps k token o ≡ true = e ∙ same in
        let mine : (p.operation_id == k) ≡ true = ap (λ x. x == k) a.same_operation ∙ same in
        let (named, coded, pending) = fitting-IsSettled now code phase fits in
        rw (hit, mine)
          (record {
            same_operation = a.same_operation;
            named = named;
            coded = coded;
            pending = pending;
            held = refl;
            leased = refl;
          })
    | inr other ↦
        let missed : is_owned now all_ps k token o ≡ false = e ∙ other in
        let apart : (p.operation_id == k) ≡ false = ap (λ x. x == k) a.same_operation ∙ other in
        rw (missed, apart) a
  ]

  pub finish-Agrees :
      (ps : List Publication) (os : List OutboxRow)
      → IsKeyed os
      → affected (is_owned now all_ps k token) os ≢ 0
      → Paired Agrees ps os
      → Paired Agrees
          (set_phase k (next_phase phase) (error_code phase code) ps)
          (update (is_owned now all_ps k token) (acknowledge now phase retry_after) os)
  unfolding set_phase
  finish-Agrees ps os keyed some_row h =
      let owned = is_owned now all_ps k token in
      let own = owned_rows now all_ps k token os keyed some_row in
      Paired-update _ Agrees (λ q. q.operation_id == k)
        (λ q. record q { phase = next_phase phase; error_code = error_code phase code }) owned
        (acknowledge now phase retry_after) acknowledged-Agrees ps os
        (pair_both Agrees _ ps os h
          (pair_rows Agrees (λ o. owned o ≡ (o.operation_id == k)) ps os h own))
