-- ===== src/Grants/Checked.antt =====
-- What a worker of access publications may rely on between `ClaimModelAccessPublication` and the two
-- calls of `CheckModelAccessDelivery` around its projection.
use agent_enterprise_protoco.Common.{ℕ, ◌+◌, ◌≤◌, ◌<◌, String, ◌≡◌, refl, sym, ap, ◌∙◌, ◌⊎◌, inl, inr, Bool, true, ◌&&◌, Option, none, some, List, [], ◌∷◌, arith, eq_iff, eq_refl, ltb, nat_beq_iff, Bool-cases, Option-cases, any, ◌==◌, nat_eq, string_eq, In, In-any, any-In}
use agent_enterprise_protoco.Common.Results.{Result, ok, err}
use agent_enterprise_protoco.Publication.Tables.{OutboxRow, update}
use agent_enterprise_protoco.Publication.Delivery.{lease, take_lease, is_held, has_token}
use agent_enterprise_protoco.Grants.Tables.{
  Stream, ModelAccessPublication, AccessTables, is_last_of, is_last, find_last, latest_access,
}
use agent_enterprise_protoco.Grants.Delivery.{
  AccessError, not_found, ModelAccessDelivery, Candidate, is_operation, is_row, is_due, is_waiting,
  due_rows, candidates, is_before, earlier, first_candidate, projecting, expire, lease_access,
  claim_value, claim_binding, claim_access, is_same_intent, is_leased, is_checked, check_delivery,
}
use agent_enterprise_protoco.Grants.Holder.{IsNewest, is_last-IsNewest}

-- The primary keys of the streams and of the publications.
pub record IsKeyedAccess (t : AccessTables) : Type 0 where
  pub one_stream :
      (r s : Stream) → In r t.streams → In s t.streams → r.binding_key ≡ s.binding_key → r ≡ s
  pub one_publication :
      (p q : ModelAccessPublication)
      → In p t.publications
      → In q t.publications
      → p.binding_key ≡ q.binding_key
      → p.sequence ≡ q.sequence
      → p ≡ q

first_candidate-In :
    (before : String → String → Bool) (cs : List Candidate) (a : Candidate)
    → first_candidate before cs ≡ some a
    → In a cs
unfolding first_candidate earlier
first_candidate-In before [] a h = cc
first_candidate-In before (c ∷ cs) a h = elim (Option-cases (first_candidate before cs)) [
  | inl e ↦ let h' : Path (Option Candidate) (some c) (some a) = rw e at h in inl cc
  | inr (b, e) ↦ elim (Bool-cases (is_before before b c)) [
    | inl sooner ↦
        let h' : Path (Option Candidate) (some b) (some a) = rw (e, sooner) at h in
        inr (first_candidate-In before cs a (e ∙ h'))
    | inr later ↦ let h' : Path (Option Candidate) (some c) (some a) = rw (e, later) at h in inl cc
  ]
]

-- The rows that a candidate of the query comes from.
record IsFrom (now : ℕ) (locked : String → Bool) (t : AccessTables) (a : Candidate) : Type 0 where
  publication : ModelAccessPublication
  publication_in : In publication t.publications
  binding : publication.binding_key ≡ a.binding_key
  waiting : any (is_waiting locked publication) t.streams ≡ true
  row : OutboxRow
  row_in : In row t.outbox
  due : is_due now publication row ≡ true

-- A due row of the publication, which has the candidate's binding.
abbrev IsDueRow : ℕ → ModelAccessPublication → List OutboxRow → Candidate → Type 0
IsDueRow now p os a =
    (p.binding_key ≡ a.binding_key) × ((o : OutboxRow) × In o os × (is_due now p o ≡ true))

behind :
    (now : ℕ) (p : ModelAccessPublication) (o : OutboxRow) (os : List OutboxRow) (A : Type 0)
    (a : Candidate)
    → A ⊎ IsDueRow now p os a
    → A ⊎ IsDueRow now p (o ∷ os) a
behind now p o os A a (inl k) = inl k
behind now p o os A a (inr (b, (q, k, due))) = inr (b, (q, inr k, due))

In-due_rows :
    (now : ℕ) (p : ModelAccessPublication) (os : List OutboxRow) (others : List Candidate)
    (a : Candidate)
    → In a (due_rows now p os others)
    → In a others ⊎ IsDueRow now p os a
unfolding due_rows
In-due_rows now p [] others a i = inl i
In-due_rows now p (o ∷ os) others a i = elim (Bool-cases (is_due now p o)) [
  | inl due ↦ by_head (In-due_rows now p os others a) (rw due at i) due
  | inr wait ↦ behind now p o os (In a others) a (In-due_rows now p os others a (rw wait at i))
]
  where
    by_head :
        (In a (due_rows now p os others) → In a others ⊎ IsDueRow now p os a)
        → In a (
            record {
              next_attempt_at = o.next_attempt_at;
              created_at = p.created_at;
              binding_key = p.binding_key;
            }
            ∷ due_rows now p os others)
        → is_due now p o ≡ true
        → In a others ⊎ IsDueRow now p (o ∷ os) a
    by_head rest (inl same) due =
        inr (ap (λ (x : Candidate). x.binding_key) same, (o, inl refl, due))
    by_head rest (inr j) due = behind now p o os (In a others) a (rest j)

module _ (now : ℕ) (locked : String → Bool) (t : AccessTables) where
  In-candidates :
      (ps : List ModelAccessPublication) (a : Candidate)
      → ((p : ModelAccessPublication) → In p ps → In p t.publications)
      → In a (candidates now locked t.streams t.outbox ps)
      → IsFrom now locked t a
  unfolding candidates
  In-candidates [] a sub i = absurd i
  In-candidates (p ∷ ps) a sub i = elim (Bool-cases (any (is_waiting locked p) t.streams)) [
    | inl waits ↦
        elim (In-due_rows now p t.outbox (candidates now locked t.streams t.outbox ps) a
          (rw waits at i)) [
            | inl j ↦ In-candidates ps a (λ q k. sub q (inr k)) j
            | inr (b, (o, k, due)) ↦ record {
              publication = p;
              publication_in = sub p (inl refl);
              binding = b;
              waiting = waits;
              row = o;
              row_in = k;
              due = due;
            }
          ]
    | inr idle ↦ In-candidates ps a (λ q k. sub q (inr k)) (rw idle at i)
  ]

find_last-In :
    (b : String) (ss : List Stream) (ps : List ModelAccessPublication) (q : ModelAccessPublication)
    → find_last b ss ps ≡ some q
    → In q ps × (q.binding_key ≡ b) × (is_last ss q ≡ true)
unfolding find_last
find_last-In b ss [] q h = cc
find_last-In b ss (p ∷ ps) q h = elim (Bool-cases (p.binding_key == b && is_last ss p)) [
  | inl hit ↦
      let h' : Path (Option ModelAccessPublication) (some p) (some q) = rw hit at h in
      let same : p ≡ q = cc in
      let key : p.binding_key ≡ b = ground (arith, eq_iff p.binding_key b) in
      let last : is_last ss p ≡ true = ground arith in
      (
        inl same,
        sym (ap (λ (x : ModelAccessPublication). x.binding_key) same) ∙ key,
        ap (is_last ss) (sym same) ∙ last,
      )
  | inr miss ↦ let (i, key, last) = find_last-In b ss ps q (rw miss at h) in (inr i, key, last)
]

pub In-update :
    {R : Type 0} (test : R → Bool) (change : R → R) (row : R) (rows : List R)
    → In row rows
    → test row ≡ true
    → In (change row) (update test change rows)
unfolding update
In-update test change row [] i h = absurd i
In-update test change row (r ∷ rows) (inl same) h =
    let hit : test r ≡ true = ap test same ∙ h in rw hit (inl (ap change same))
In-update test change row (r ∷ rows) (inr i) h = inr (In-update test change row rows i h)

-- A claim that delivers takes the lease of the last intent of a stream, which has a due row.
record IsTaken (now : ℕ) (token : String) (t : AccessTables) (d : ModelAccessDelivery)
    (t' : AccessTables) : Type 0 where
  intent : ModelAccessPublication
  intent_in : In intent t.publications
  intent_last : is_last t.streams intent ≡ true
  row : OutboxRow
  row_in : In row t.outbox
  row_due : is_due now intent row ≡ true
  delivered : d.publication ≡ projecting intent
  with_token : d.claim_token ≡ token
  leased : t' ≡ lease_access now token intent.operation_id t

-- The row of a candidate belongs to the intent that is read for its binding.
same_intent :
    (now : ℕ) (locked : String → Bool) (t : AccessTables) (a : Candidate)
    (f : IsFrom now locked t a) (q : ModelAccessPublication)
    → IsKeyedAccess t
    → In q t.publications
    → q.binding_key ≡ a.binding_key
    → is_last t.streams q ≡ true
    → f.publication ≡ q
unfolding is_waiting is_last_of
same_intent now locked t a f q keyed i b last =
    let p = f.publication in
    let (s, j, e) =
      any-In (is_waiting locked p) t.streams (unfold is_waiting is_last_of in f.waiting) in
    let n : IsNewest q t = is_last-IsNewest q t last in
    let s_key : s.binding_key ≡ p.binding_key =
      ground (arith, eq_iff s.binding_key p.binding_key) in
    let s_last : s.last_sequence ≡ p.sequence =
      ground (arith, nat_beq_iff s.last_sequence p.sequence) in
    let keys : p.binding_key ≡ q.binding_key = f.binding ∙ sym b in
    let one : s ≡ n.stream =
      keyed.one_stream s n.stream j n.stream_in (s_key ∙ keys ∙ sym n.stream_binding) in
    keyed.one_publication p q f.publication_in i keys
      (sym s_last ∙ ap (λ (x : Stream). x.last_sequence) one ∙ n.stream_sequence)

claim_value-taken :
    (now : ℕ) (token : String) (p : ModelAccessPublication) (t t' : AccessTables)
    (d : ModelAccessDelivery)
    → claim_value now token p t ≡ (ok (some d), t')
    → (d.publication ≡ projecting p)
      × (d.claim_token ≡ token)
      × (t' ≡ lease_access now token p.operation_id t)
unfolding claim_value
claim_value-taken now token p t t' d h = elim (Bool-cases (ltb now p.valid_until)) [
  | inr expired ↦
      let h' : Path (Result AccessError (Option ModelAccessDelivery) × AccessTables)
          (ok none, expire now p.operation_id t) (ok (some d), t') =
        rw expired at h in
      cc
  | inl timely ↦
      let d' : ModelAccessDelivery = record { publication = projecting p; claim_token = token } in
      let h' : Path (Result AccessError (Option ModelAccessDelivery) × AccessTables)
          (ok (some d'), lease_access now token p.operation_id t) (ok (some d), t') =
        rw timely at h in
      let same : d' ≡ d = cc in
      (
        sym (ap (λ (x : ModelAccessDelivery). x.publication) same),
        sym (ap (λ (x : ModelAccessDelivery). x.claim_token) same),
        cc,
      )
]

claim_access-IsTaken :
    (now : ℕ) (token : String) (before : String → String → Bool) (locked : String → Bool)
    (t t' : AccessTables) (d : ModelAccessDelivery)
    → IsKeyedAccess t
    → claim_access now token before locked t ≡ (ok (some d), t')
    → IsTaken now token t d t'
unfolding claim_access claim_binding latest_access
claim_access-IsTaken now token before locked t t' d keyed h =
    let cs = candidates now locked t.streams t.outbox t.publications in
    elim (Option-cases (first_candidate before cs)) [
      | inl e ↦
          let h' : Path (Result AccessError (Option ModelAccessDelivery) × AccessTables)
              (ok none, t) (ok (some d), t') =
            rw (claim_access, e) at h in
          cc
      | inr (a, e) ↦
          let h1 : claim_binding now token a.binding_key t ≡ (ok (some d), t') =
            rw (claim_access, e) at h in
          let f : IsFrom now locked t a =
            In-candidates now locked t t.publications a (λ p i. i)
              (first_candidate-In before cs a e) in
          elim (Option-cases (find_last a.binding_key t.streams t.publications)) [
            | inl none_last ↦
                let h2 : Path (Result AccessError (Option ModelAccessDelivery) × AccessTables)
                    (err not_found, t) (ok (some d), t') =
                  rw (claim_binding, latest_access, none_last) at h1 in
                cc
            | inr (q, last) ↦
                let h2 : claim_value now token q t ≡ (ok (some d), t') =
                  rw (claim_binding, latest_access, last) at h1 in
                let (i, b, newest) = find_last-In a.binding_key t.streams t.publications q last in
                let (delivered, with_token, leased) = claim_value-taken now token q t t' d h2 in
                let same : f.publication ≡ q = same_intent now locked t a f q keyed i b newest in
                record {
                  intent = q;
                  intent_in = i;
                  intent_last = newest;
                  row = f.row;
                  row_in = f.row_in;
                  row_due = sym (ap (λ x. is_due now x f.row) same) ∙ f.due;
                  delivered = delivered;
                  with_token = with_token;
                  leased = leased;
                }
          ]
    ]

is_same_intent_refl :
    (p : ModelAccessPublication) → is_same_intent (projecting p) (projecting p) ≡ true
unfolding is_same_intent
is_same_intent_refl p = ground (
  arith,
  eq_refl p.binding_key,
  eq_refl p.subject_id,
  eq_refl p.operation_id,
  eq_refl p.revision,
  eq_refl p.content_hash,
)

is_leased-take_lease :
    (now later : ℕ) (token : String) (p : ModelAccessPublication) (o : OutboxRow)
    → is_due now p o ≡ true
    → later < now + lease
    → is_leased later p.operation_id token (take_lease now token o) ≡ true
unfolding is_leased is_due take_lease has_token is_held
is_leased-take_lease now later token p o due soon = ground (arith, due, soon, eq_refl token)

module _ (now later : ℕ) (token : String) (t : AccessTables) (p : ModelAccessPublication)
    (o : OutboxRow) where
  -- The leased intent passes the comparison of a check.
  is_checked-lease_access :
      is_last t.streams p ≡ true
      → In o t.outbox
      → is_due now p o ≡ true
      → later < now + lease
      → p.issued_at ≤ later
      → later < p.valid_until
      → is_checked later
          (record { publication = projecting p; claim_token = token })
          (lease_access now token p.operation_id t)
          (projecting p)
        ≡ true
  unfolding is_checked lease_access is_last is_last_of is_due
  is_checked-lease_access last i due soon issued valid =
      let row_test : is_row p.operation_id o ≡ true = ground (arith, due) in
      let leased =
        In-any (is_leased later p.operation_id token) (take_lease now token o)
          (update (is_row p.operation_id) (take_lease now token) t.outbox)
          (In-update (is_row p.operation_id) (take_lease now token) o t.outbox i row_test)
          (is_leased-take_lease now later token p o due soon) in
      ground (arith, is_same_intent_refl p, last, leased, issued, valid)

check_delivery-ok :
    (is_uuid : String → Bool) (deployment_id : String) (later : ℕ) (d : ModelAccessDelivery)
    (t : AccessTables)
    → is_uuid d.claim_token ≡ true
    → d.publication.deployment_id ≡ deployment_id
    → any (is_checked later d t) t.publications ≡ true
    → check_delivery is_uuid later deployment_id d t ≡ ok tt
unfolding check_delivery
check_delivery-ok is_uuid deployment_id later d t uuid own checked =
    let here : (d.publication.deployment_id == deployment_id) ≡ true =
      (eq_iff d.publication.deployment_id deployment_id).1 own in
    rw (here, uuid, checked) refl

-- A delivered access publication passes the worker's checks: on tables with their primary keys, from
-- a claim that delivers until its lease of 30 seconds or the validity of the publication ends, a
-- check of the delivery succeeds on the tables that the claim leaves.
pub claim_access-check_delivery :
    (is_uuid : String → Bool) (deployment_id : String) (now later : ℕ) (token : String)
    (before : String → String → Bool) (locked : String → Bool) (t t' : AccessTables)
    (d : ModelAccessDelivery)
    → IsKeyedAccess t
    → is_uuid token ≡ true
    → claim_access now token before locked t ≡ (ok (some d), t')
    → d.publication.deployment_id ≡ deployment_id
    → d.publication.issued_at ≤ later
    → later < d.publication.valid_until
    → later < now + lease
    → check_delivery is_uuid later deployment_id d t' ≡ ok tt
unfolding lease_access
claim_access-check_delivery is_uuid deployment_id now later token before locked t t' d keyed uuid h
      own issued valid soon =
    let k = claim_access-IsTaken now token before locked t t' d keyed h in
    let issued' : k.intent.issued_at ≤ later =
      omega (arith, issued, ap (λ (x : ModelAccessPublication). x.issued_at) k.delivered) in
    let valid' : later < k.intent.valid_until =
      omega (arith, valid, ap (λ (x : ModelAccessPublication). x.valid_until) k.delivered) in
    let d' : ModelAccessDelivery = record {
      publication = projecting k.intent;
      claim_token = token;
    } in
    let same : d ≡ d' = λ i. record { publication = k.delivered i; claim_token = k.with_token i } in
    let checked =
      In-any (is_checked later d' (lease_access now token k.intent.operation_id t))
        (projecting k.intent)
        (update (is_operation k.intent.operation_id) projecting t.publications)
        (In-update (is_operation k.intent.operation_id) projecting k.intent t.publications
          k.intent_in (eq_refl k.intent.operation_id))
        (is_checked-lease_access now later token t k.intent k.row k.intent_last k.row_in k.row_due
          soon issued' valid') in
    let left : AccessTables = lease_access now token k.intent.operation_id t in
    let own' : k.intent.deployment_id ≡ deployment_id =
      sym (ap (λ (x : ModelAccessPublication). x.deployment_id) k.delivered) ∙ own in
    let after : check_delivery is_uuid later deployment_id d' left ≡ ok tt =
      check_delivery-ok is_uuid deployment_id later d' left uuid own' checked in
    ap (λ x. check_delivery is_uuid later deployment_id x t') same
    ∙ ap (check_delivery is_uuid later deployment_id d') k.leased
    ∙ after
