-- ===== src/Publication/Lease.antt =====
-- Who may deliver a publication: what the claims and the acknowledgements of
-- publication_delivery.go establish.
use agent_enterprise_protoco.Common.{
  ℕ, ◌+◌, ◌<◌, String, ◌≡◌, refl, sym, ap, ◌∙◌, ◌≢◌, inl, inr, Bool, true, false, ◌&&◌, Option,
  none, some, List, [], ◌∷◌, arith, eq_iff, ltb, if◌then◌else◌, Bool-cases, Option-cases, All,
  All-map, ◌==◌, nat_eq, string_eq,
}
use agent_enterprise_protoco.Common.Results.{ok, err}
use mathlib.Core.Path.{subst}
use agent_enterprise_protoco.Publication.Tables.{
  Publication, OutboxRow, Tables, update, affected, is_open, latest,
}
use agent_enterprise_protoco.Publication.Latest.{latest-update, affected_none, All-update, IsKeyed, map_option, changed}
use agent_enterprise_protoco.Publication.Delivery.{
  missing_inputs, Inputs, PublicationDelivery, lease, supersede, retire, is_retired, complete,
  is_unleased, is_claimable, take_lease, project, deliver, sweep, Claimed, claim_latest,
  claim_publication,
}

-- What a claim that delivers has done.
pub record IsClaim (inputs : Publication → Option Inputs) (now : ℕ) (token : String) (s : Tables)
    (d : PublicationDelivery) (s' : Tables) : Type 0 where
  pub intent : Publication
  pub intent_latest : latest s.publications ≡ some intent
  pub intent_open : is_open intent.phase ≡ true
  pub delivered : d.publication ≡ record intent { phase = "projecting" }
  pub its_token : d.claim_token ≡ token
  pub inputs_read : inputs intent ≡ some d.inputs
  pub leasable : affected (is_claimable now intent.operation_id) (sweep now intent s).outbox ≢ 0
  pub publications_left :
      s'.publications ≡ project intent.operation_id (supersede intent.sequence s.publications)
  pub outbox_left :
      s'.outbox
      ≡ update
          (is_claimable now intent.operation_id)
          (take_lease now token)
          (sweep now intent s).outbox

module _ (inputs : Publication → Option Inputs) (now : ℕ) (token : String) where
  abbrev Delivers : Publication → Tables → PublicationDelivery → Tables → Type 0
  Delivers p s d s' =
      (d.publication ≡ record p { phase = "projecting" })
      × (d.claim_token ≡ token)
      × (inputs p ≡ some d.inputs)
      × (s'.publications ≡ project p.operation_id s.publications)
      × (s'.outbox ≡ update (is_claimable now p.operation_id) (take_lease now token) s.outbox)

  deliver-eq :
      (p : Publication) (before s s' : Tables) (d : PublicationDelivery)
      → deliver inputs now token p before s ≡ (ok (some d), s')
      → Delivers p s d s'
  unfolding deliver
  deliver-eq p before s s' d h = elim (Option-cases (inputs p)) [
    | inl e ↦
        let h' : Path (Claimed inputs now token) (err missing_inputs, before) (ok (some d), s') =
          rw (deliver, e) at h in
        cc
    | inr (i, e) ↦
        let made : PublicationDelivery = record {
          publication = record p { phase = "projecting" };
          claim_token = token;
          inputs = i;
        } in
        let left : Tables = record {
          publications = project p.operation_id s.publications;
          outbox = update (is_claimable now p.operation_id) (take_lease now token) s.outbox;
        } in
        let h' : Path (Claimed inputs now token) (ok (some made), left) (ok (some d), s') =
          rw (deliver, e) at h in
        let same_d : made ≡ d = cc in
        let same_s : left ≡ s' = cc in
        (
          ap (λ (x : PublicationDelivery). x.publication) (sym same_d),
          ap (λ (x : PublicationDelivery). x.claim_token) (sym same_d),
          e ∙ ap (λ (x : PublicationDelivery). some x.inputs) same_d,
          ap (λ (x : Tables). x.publications) (sym same_s),
          ap (λ (x : Tables). x.outbox) (sym same_s),
        )
  ]

  claim_latest-eq :
      (p : Publication) (s s' : Tables) (d : PublicationDelivery)
      → claim_latest inputs now token p s ≡ (ok (some d), s')
      → (is_open p.phase ≡ true)
        × (affected (is_claimable now p.operation_id) (sweep now p s).outbox ≢ 0)
        × (deliver inputs now token p s (sweep now p s) ≡ (ok (some d), s'))
  unfolding claim_latest
  claim_latest-eq p s s' d h = (ground arith, λ e. ground (arith, e), ground arith)

  pub claim_publication-IsClaim :
      (s s' : Tables) (d : PublicationDelivery)
      → claim_publication inputs now token true s ≡ (ok (some d), s')
      → IsClaim inputs now token s d s'
  unfolding claim_publication
  claim_publication-IsClaim s s' d h = elim (Option-cases (latest s.publications)) [
    | inl e ↦
        let h' : Path (Claimed inputs now token) (ok none, s) (ok (some d), s') = rw e at h in cc
    | inr (p, e) ↦
        let (open_phase, leasable, k) = claim_latest-eq p s s' d (rw e at h) in
        let (publication, its_token, read, ps, os) = deliver-eq p s (sweep now p s) s' d k in
        record {
          intent = p;
          intent_latest = e;
          intent_open = open_phase;
          delivered = publication;
          its_token = its_token;
          inputs_read = read;
          leasable = leasable;
          publications_left = unfold sweep in ps;
          outbox_left = os;
        }
  ]

-- The rows of the outbox after an operation has been leased.
abbrev IsFree : ℕ → String → OutboxRow → Type 0
IsFree now k o = is_claimable now k o ≡ true

abbrev IsTaken : ℕ → String → OutboxRow → Type 0
IsTaken now k o = is_claimable now k o ≡ false

abbrev pub IsOther : String → OutboxRow → Type 0
IsOther k o = (o.operation_id == k) ≡ false

other-IsTaken : (now : ℕ) (k : String) (o : OutboxRow) → IsOther k o → IsTaken now k o
unfolding is_claimable
other-IsTaken now k o h = ground arith

take_lease-IsTaken :
    (now later : ℕ) (token k : String) (o : OutboxRow)
    → later < now + lease
    → IsTaken later k (take_lease now token o)
unfolding is_claimable take_lease is_unleased
take_lease-IsTaken now later token k o h = ground arith

others_update :
    (now later : ℕ) (token k : String) (os : List OutboxRow)
    → All (IsOther k) os
    → All (IsTaken later k) (update (is_claimable now k) (take_lease now token) os)
others_update now later token k os h =
    All-update (IsOther k) (IsTaken later k) (is_claimable now k) (take_lease now token)
      (λ o other e. ground (arith, other-IsTaken now k o other, e))
      (λ o other e. other-IsTaken later k o other) os h

pub free_operation :
    (now : ℕ) (k : String) (o : OutboxRow) → is_claimable now k o ≡ true → o.operation_id ≡ k
unfolding is_claimable
free_operation now k o h = ground (arith, eq_iff o.operation_id k)

-- If a row of a keyed outbox stands for the operation, no row behind it does.
pub others_of :
    (k : String) (o : OutboxRow) (os : List OutboxRow)
    → o.operation_id ≡ k
    → All (IsOther o.operation_id) os
    → All (IsOther k) os
others_of k o os same h = subst (λ x. All (IsOther x) os) same h

-- A row before the one that is free stands for another operation.
pub before-IsOther :
    (now : ℕ) (k : String) (o : OutboxRow) (os : List OutboxRow)
    → All (IsOther o.operation_id) os
    → affected (is_claimable now k) os ≢ 0
    → IsOther k o
before-IsOther now k o os others rest = elim (Bool-cases (o.operation_id == k)) [
  | inl same ↦
      let behind = others_of k o os ((eq_iff o.operation_id k).0 same) others in
      absurd (
        rest (
          affected_none (is_claimable now k) os
            (All-map (IsOther k) (IsTaken now k) (other-IsTaken now k) os behind)))
  | inr differs ↦ differs
]

leased_rows :
    (now later : ℕ) (token k : String) (os : List OutboxRow)
    → IsKeyed os
    → later < now + lease
    → affected (is_claimable now k) os ≢ 0
    → All (IsTaken later k) (update (is_claimable now k) (take_lease now token) os)
unfolding update
leased_rows now later token k [] keyed h some_row = tt
leased_rows now later token k (o ∷ os) (others, keyed) h some_row =
    elim (Bool-cases (is_claimable now k o)) [
      | inl free ↦
          let behind = others_of k o os (free_operation now k o free) others in
          rw free
            (take_lease-IsTaken now later token k o h, others_update now later token k os behind)
      | inr taken ↦
          let rest : affected (is_claimable now k) os ≢ 0 =
            unfold affected in rw taken at some_row in
          let head = other-IsTaken later k o (before-IsOther now k o os others rest) in
          rw taken (head, leased_rows now later token k os keyed h rest)
    ]

pub update-IsKeyed :
    (test : OutboxRow → Bool) (change : OutboxRow → OutboxRow)
    → ((o : OutboxRow) → (change o).operation_id ≡ o.operation_id)
    → (os : List OutboxRow) → IsKeyed os
    → IsKeyed (update test change os)
unfolding update
update-IsKeyed test change same [] h = tt
update-IsKeyed test change same (o ∷ os) (others, keyed) =
    let behind : (k : String) → All (IsOther k) os → All (IsOther k) (update test change os) =
      λ k h.
        All-update (IsOther k) (IsOther k) test change (λ q other e. rw (same q) other)
          (λ q other e. other) os h in
    let head : (if test o then change o else o).operation_id ≡ o.operation_id =
      elim (Bool-cases (test o)) [ inl e ↦ rw e (same o) | inr e ↦ rw e refl ] in
    (rw head (behind o.operation_id others), update-IsKeyed test change same os keyed)

complete-IsTaken : (now later : ℕ) (k : String) (o : OutboxRow) → IsTaken later k (complete now o)
unfolding is_claimable complete
complete-IsTaken now later k o = ground arith

retire-IsTaken :
    (now later : ℕ) (k : String) (ps : List Publication) (os : List OutboxRow)
    → All (IsTaken later k) os
    → All (IsTaken later k) (retire now ps os)
unfolding retire
retire-IsTaken now later k ps os h =
    All-update (IsTaken later k) (IsTaken later k) (is_retired ps) (complete now)
      (λ o taken e. complete-IsTaken now later k o) (λ o taken e. taken) os h

pub sweep-IsKeyed :
    (now : ℕ) (p : Publication) (s : Tables) → IsKeyed s.outbox → IsKeyed (sweep now p s).outbox
unfolding sweep retire complete
sweep-IsKeyed now p s h = update-IsKeyed _ _ (λ o. refl) s.outbox h

changed-operation :
    (test : Publication → Bool) (change : Publication → Publication)
    → ((p : Publication) → (change p).operation_id ≡ p.operation_id)
    → (p : Publication) → (changed test change p).operation_id ≡ p.operation_id
changed-operation test change same p = elim (Bool-cases (test p)) [
  | inl hit ↦ rw hit (same p)
  | inr missed ↦ rw missed refl
]

-- The newest intent is still the same one after a claim.
pub latest_after :
    (k : String) (sequence : ℕ) (ps : List Publication) (p : Publication)
    → latest ps ≡ some p
    → (q : Publication) × (latest (project k (supersede sequence ps)) ≡ some q)
      × (q.operation_id ≡ p.operation_id)
unfolding project supersede
latest_after k sequence ps p e =
    let swept =
      latest-update (λ q. ltb q.sequence sequence && is_open q.phase)
        (λ q. record q { phase = "superseded" }) (λ q. refl) ps in
    let projected =
      latest-update (λ q. q.operation_id == k) (λ q. record q { phase = "projecting" }) (λ q. refl)
        (supersede sequence ps) in
    let first =
      changed (λ q. ltb q.sequence sequence && is_open q.phase)
        (λ q. record q { phase = "superseded" }) p in
    let last = changed (λ q. q.operation_id == k) (λ q. record q { phase = "projecting" }) first in
    (
      last,
      projected
          ∙ ap
              (map_option
                (changed (λ q. q.operation_id == k) (λ q. record q { phase = "projecting" })))
              (swept ∙ ap (map_option _) e),
      changed-operation (λ q. q.operation_id == k) (λ q. record q { phase = "projecting" })
            (λ q. refl) first
          ∙ changed-operation (λ q. ltb q.sequence sequence && is_open q.phase)
              (λ q. record q { phase = "superseded" }) (λ q. refl) p,
    )

claim_latest_taken :
    (inputs : Publication → Option Inputs) (now : ℕ) (token : String) (p : Publication) (s : Tables)
    → All (IsTaken now p.operation_id) (sweep now p s).outbox
    → (claim_latest inputs now token p s).0 ≡ ok none
unfolding claim_latest
claim_latest_taken inputs now token p s h =
    let none_left = affected_none (is_claimable now p.operation_id) (sweep now p s).outbox h in
    ground (arith, none_left)

-- A lease is exclusive: from a claim that delivers a publication until 30 seconds later, every
-- further claim on the tables that it leaves, by any worker with any token, delivers nothing.
pub claim_exclusive :
    (inputs inputs' : Publication → Option Inputs) (now later : ℕ) (token token' : String)
    (locked : Bool) (s s' : Tables) (d : PublicationDelivery)
    → IsKeyed s.outbox
    → claim_publication inputs now token true s ≡ (ok (some d), s')
    → later < now + lease
    → (claim_publication inputs' later token' locked s').0 ≡ ok none
unfolding claim_publication
claim_exclusive inputs inputs' now later token token' locked s s' d keyed h soon =
    let c = claim_publication-IsClaim inputs now token s s' d h in
    let k = c.intent.operation_id in
    let (q, found, same) =
      latest_after k c.intent.sequence s.publications c.intent c.intent_latest in
    let still : latest s'.publications ≡ some q = ap latest c.publications_left ∙ found in
    let rows : All (IsTaken later k) s'.outbox = rw c.outbox_left (
      leased_rows now later token k (sweep now c.intent s).outbox
        (sweep-IsKeyed now c.intent s keyed) soon c.leasable) in
    let swept : All (IsTaken later q.operation_id) (sweep later q s').outbox =
      rw same (unfold sweep in retire-IsTaken later later k _ s'.outbox rows) in
    elim (Bool-cases locked) [
      | inl here ↦ rw (here, still) (claim_latest_taken inputs' later token' q s' swept)
      | inr elsewhere ↦ rw elsewhere refl
    ]
