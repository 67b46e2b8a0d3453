-- ===== src/Publication/Round.antt =====
-- A delivery from its claim to its acknowledgement: publication_delivery.go as the worker of the
-- relay uses it.
use agent_enterprise_protoco.Common.{ℕ, suc, ◌+◌, ◌≤◌, ◌<◌, String, ◌≡◌, refl, ap, ◌∙◌, ◌≢◌, ◌⊎◌, inl, inr, Bool, true, false, not, ◌&&◌, ◌||◌, Option, some, List, [], ◌∷◌, arith, eq_iff, eq_refl, ltb, Bool-cases, Option-cases, any, All, ◌==◌, nat_eq, string_eq, In, In-any, All-In}
use agent_enterprise_protoco.Common.Results.{ok}
use agent_enterprise_protoco.Publication.Tables.{
  Publication, OutboxRow, Tables, update, affected, newer, latest,
}
use agent_enterprise_protoco.Publication.Latest.{latest_is_greatest, affected_none, All-update, IsKeyed}
use agent_enterprise_protoco.Publication.Delivery.{
  Inputs, PublicationDelivery, lease, supersede, is_claimable, take_lease, project, sweep,
  claim_publication, is_terminal, has_newer, is_current, is_held, has_token, is_owned,
  finish_publication,
}
use agent_enterprise_protoco.Publication.Lease.{
  claim_publication-IsClaim, IsOther, latest_after, sweep-IsKeyed, others_of, free_operation,
  before-IsOther,
}

latest-In : (ps : List Publication) (p : Publication) → latest ps ≡ some p → In p ps
unfolding latest newer
latest-In [] p h = cc
latest-In (q ∷ ps) p h = elim (Option-cases (latest ps)) [
  | inl e ↦ let h' : Path (Option Publication) (some q) (some p) = rw e at h in inl cc
  | inr (r, e) ↦ elim (Bool-cases (ltb q.sequence r.sequence)) [
    | inl older ↦
        let h' : Path (Option Publication) (some r) (some p) = rw (e, older) at h in
        inr (latest-In ps p (e ∙ h'))
    | inr younger ↦
        let h' : Path (Option Publication) (some q) (some p) = rw (e, younger) at h in inl cc
  ]
]

-- What the projection of an operation leaves of its intents.
abbrev IsProjecting : String → Publication → Type 0
IsProjecting k p = ((p.operation_id == k) ≡ false) ⊎ (p.phase ≡ "projecting")

project-IsProjecting : (k : String) (ps : List Publication) → All (IsProjecting k) (project k ps)
unfolding project update
project-IsProjecting k [] = tt
project-IsProjecting k (p ∷ ps) = elim (Bool-cases (p.operation_id == k)) [
  | inl same ↦ rw same (inr refl, project-IsProjecting k ps)
  | inr other ↦ rw other (inl other, project-IsProjecting k ps)
]

no_newer :
    (ps : List Publication) (sequence : ℕ)
    → All (λ q. q.sequence ≤ sequence) ps
    → has_newer ps sequence ≡ false
unfolding has_newer
no_newer [] sequence h = refl
no_newer (p ∷ ps) sequence (le, h) = ground (arith, no_newer ps sequence h)

module _ (now later : ℕ) (token k : String) (ps : List Publication) (soon : later < now + lease)
    (current : is_current ps k ≡ true) where
  owned_leased :
      (o : OutboxRow)
      → is_claimable now k o ≡ true
      → is_owned later ps k token (take_lease now token o) ≡ true
  unfolding is_owned take_lease is_claimable has_token is_held
  owned_leased o h = ground (arith, current, soon, eq_refl token)

  others_not_owned :
      (os : List OutboxRow)
      → All (IsOther k) os
      → All
          (λ o. is_owned later ps k token o ≡ false)
          (update (is_claimable now k) (take_lease now token) os)
  others_not_owned os h =
      All-update (IsOther k) (λ o. is_owned later ps k token o ≡ false) (is_claimable now k)
        (take_lease now token) (λ o other e. unfold take_lease is_owned in ground (arith, other))
        (λ o other e. unfold is_owned in ground (arith, other)) os h

  -- Exactly one row is the claim's.
  one_owned :
      (os : List OutboxRow)
      → IsKeyed os
      → affected (is_claimable now k) os ≢ 0
      → affected (is_owned later ps k token) (update (is_claimable now k) (take_lease now token) os)
        ≡ 1
  unfolding update affected
  one_owned [] keyed some_row = absurd (some_row refl)
  one_owned (o ∷ os) (others, keyed) some_row = elim (Bool-cases (is_claimable now k o)) [
    | inl free ↦
        let behind = others_of k o os (free_operation now k o free) others in
        let none_behind =
          affected_none (is_owned later ps k token)
            (update (is_claimable now k) (take_lease now token) os) (others_not_owned os behind) in
        rw (free, owned_leased o free) (ap suc none_behind)
    | inr taken ↦
        let rest : affected (is_claimable now k) os ≢ 0 = rw taken at some_row in
        let other = before-IsOther now k o os others rest in
        let not_owned : is_owned later ps k token o ≡ false =
          unfold is_owned in ground (arith, other) in
        rw (taken, not_owned) (one_owned os keyed rest)
  ]

current_after :
    (k : String) (ps : List Publication) (q : Publication)
    → latest (project k ps) ≡ some q
    → q.operation_id ≡ k
    → is_current (project k ps) k ≡ true
unfolding is_current
current_after k ps q found same =
    let i = latest-In (project k ps) q found in
    let newest = no_newer (project k ps) q.sequence (latest_is_greatest (project k ps) q found) in
    let projecting : q.phase ≡ "projecting" =
      elim (All-In (IsProjecting k) q (project k ps) i (project-IsProjecting k ps)) [
        | inl other ↦ ground (arith, other, (eq_iff q.operation_id k).1 same)
        | inr e ↦ e
      ] in
    In-any
      (λ p.
        p.operation_id == k && p.phase == "projecting" && not (has_newer (project k ps) p.sequence))
      q (project k ps) i
      (ground (
        arith,
        newest,
        (eq_iff q.operation_id k).1 same,
        (eq_iff q.phase "projecting").1 projecting,
      ))

-- A worker that is in time succeeds: whatever a claim has delivered can be acknowledged with its
-- token within 30 seconds, in each of the terminal phases or to be tried again, on the tables that
-- the claim leaves.
pub claim-finish :
    (inputs : Publication → Option Inputs) (now later : ℕ) (token phase code : String)
    (retry_after : ℕ) (s s' : Tables) (d : PublicationDelivery)
    → IsKeyed s.outbox
    → claim_publication inputs now token true s ≡ (ok (some d), s')
    → later < now + lease
    → (phase == "" || is_terminal phase) ≡ true
    → (finish_publication later d.publication.operation_id token phase code retry_after s').0
      ≡ ok tt
unfolding finish_publication
claim-finish inputs now later token phase code retry_after s s' d keyed h soon fits =
    let c = claim_publication-IsClaim inputs now token s s' d h in
    let k = c.intent.operation_id in
    let (q, found, same) =
      latest_after k c.intent.sequence s.publications c.intent c.intent_latest in
    let current = current_after k (supersede c.intent.sequence s.publications) q found same in
    let ps = project k (supersede c.intent.sequence s.publications) in
    let one =
      one_owned now later token k ps soon current (sweep now c.intent s).outbox
        (sweep-IsKeyed now c.intent s keyed) c.leasable in
    let its_operation : d.publication.operation_id ≡ k =
      ap (λ (p : Publication). p.operation_id) c.delivered in
    let one' : affected (is_owned later s'.publications d.publication.operation_id token) s'.outbox
        ≡ 1 =
      rw (its_operation, c.publications_left, c.outbox_left) one in
    ground (arith, one', fits)
