-- ===== src/Publication/Lifecycle.antt =====
-- The life of a publication as a client of the API sees it, and that the transactions of the
-- repository implement it.
use agent_enterprise_protoco.Common.{
  ℕ, String, ◌≡◌, refl, sym, ap, ◌∙◌, ◌≢◌, inl, inr, Bool, true, not, ◌&&◌, ◌||◌, none, List, [],
  ◌∷◌, map, arith, eq_iff, ltb, if◌then◌else◌, Bool-cases, any, All, ◌==◌, nat_eq, string_eq,
}
use agent_enterprise_protoco.Publication.Tables.{
  Publication, Tables, update, affected, is_null, is_open,
}
use agent_enterprise_protoco.Publication.Latest.{IsKeyed}
use agent_enterprise_protoco.Publication.Pairing.{
  Paired, IsSame, Paired-map, pair_both, pair_rows, pair_publications, Paired-any,
}
use agent_enterprise_protoco.Publication.Agreement.{
  Agrees, claimed_rows, owned_rows, open-cases, fitting-cases, next_phase,
}
use agent_enterprise_protoco.Publication.Delivery.{
  supersede, is_claimable, take_lease, project, sweep, has_newer, is_current, is_terminal,
  set_phase, is_owned, acknowledge, error_code,
}

-- A publication as it was when it was queued.
abbrev pub as_queued : Publication → Publication
as_queued p = record p { phase = "queued"; error_code = none }

abbrev pub intents : Tables → List Publication
intents s = map as_queued s.publications

pub data Status : Type 0 where
  waiting delivering : Status
  closed : String → Status

-- What the abstract queue allows of one publication.
pub data Moves : Status → Status → Type 0 where
  stays : {x : Status} → Moves x x
  starts : Moves waiting delivering
  returns : Moves delivering waiting
  gives_up : Moves waiting (closed "superseded")
  closes : (phase : String) → is_terminal phase ≡ true → Moves delivering (closed phase)

-- What is asked for, and where it stands. The abstract queue has no outbox, no leases and no times.
abbrev pub Entry : Type 0
Entry = Publication × Status

abbrev pub Pointwise : List Entry → List Entry → Type 0
Pointwise [] [] = Unit
Pointwise [] (e ∷ es) = ⊥
Pointwise (e ∷ es) [] = ⊥
Pointwise ((p, x) ∷ es) ((q, y) ∷ fs) = (p ≡ q) × Moves x y × Pointwise es fs

-- A turn of the abstract queue: a publication is queued in front, or each makes a move of its own.
pub data Turn : List Entry → List Entry → Type 0 where
  enqueues : (p : Publication) (log : List Entry) → Turn log ((p, waiting) ∷ log)
  moves : {log log' : List Entry} → Pointwise log log' → Turn log log'

infixr 5 ◌next◌
pub data Turns : List Entry → List Entry → Type 0 where
  rests : {log : List Entry} → Turns log log
  ◌next◌ : {log log' end : List Entry} → Turn log log' → Turns log' end → Turns log end

pub Turns-trans : {log log' end : List Entry} → Turns log log' → Turns log' end → Turns log end
Turns-trans rests more = more
Turns-trans (turn next turns) more = turn next Turns-trans turns more

abbrev pub status : String → Status
status phase =
    if phase == "queued"
    then waiting
    else if phase == "projecting"
    then delivering
    else closed phase

abbrev pub entry : Publication → Entry
entry p = (as_queued p, status p.phase)

abbrev pub view : Tables → List Entry
view s = map entry s.publications

abbrev Allows : (Publication → Bool) → (Publication → Publication) → Publication → Type 0
Allows test change p = test p ≡ true → Moves (status p.phase) (status (change p).phase)

update-Pointwise :
    (test : Publication → Bool) (change : Publication → Publication)
    → ((p : Publication) → as_queued p ≡ as_queued (change p))
    → (ps : List Publication) → All (Allows test change) ps
    → Pointwise (map entry ps) (map entry (update test change ps))
unfolding update
update-Pointwise test change same [] h = tt
update-Pointwise test change same (p ∷ ps) (m, h) = elim (Bool-cases (test p)) [
  | inl hit ↦ rw hit (same p, m hit, update-Pointwise test change same ps h)
  | inr missed ↦ rw missed (refl, stays, update-Pointwise test change same ps h)
]

hold_everywhere : {A : Type 0} (P : A → Type 0) → ((a : A) → P a) → (xs : List A) → All P xs
hold_everywhere P f [] = tt
hold_everywhere P f (x ∷ xs) = (f x, hold_everywhere P f xs)

pub sweep-Turn : (now : ℕ) (p : Publication) (s : Tables) → Turn (view s) (view (sweep now p s))
unfolding sweep supersede
sweep-Turn now p s =
    let older : Publication → Bool = λ q. ltb q.sequence p.sequence && is_open q.phase in
    let give_up : Publication → Publication = λ q. record q { phase = "superseded" } in
    moves (
      update-Pointwise older give_up (λ q. refl) s.publications
        (hold_everywhere (Allows older give_up)
          (λ q hit. elim (open-cases q.phase (ground (arith, hit))) [
            | inl e ↦ rw e gives_up
            | inr e ↦ rw e (closes "superseded" (unfold is_terminal in refl))
          ])
          s.publications))

any_assoc :
    {A : Type 0} (f g h : A → Bool) (xs : List A)
    → any (λ x. f x && g x && h x) xs ≡ any (λ x. f x && (g x && h x)) xs
any_assoc f g h [] = refl
any_assoc f g h (x ∷ xs) = ground (arith, any_assoc f g h xs)

finished :
    (phase : String)
    → (phase == "" || is_terminal phase) ≡ true
    → Moves delivering (status (next_phase phase))
unfolding is_terminal
finished phase fits = elim (fitting-cases phase fits) [
  | inl (inl e) ↦ rw e returns
  | inl (inr e) ↦ rw e (closes "projected" refl)
  | inr (inl e) ↦ rw e (closes "failed" refl)
  | inr (inr e) ↦ rw e (closes "superseded" refl)
]

module _ (s : Tables) (keyed : IsKeyed s.outbox)
    (agreeing : Paired Agrees s.publications s.outbox) where
  pub lease-Turn :
      (now : ℕ) (k token : String)
      → affected (is_claimable now k) s.outbox ≢ 0
      → Turn (view s) (
          view (record {
            publications = project k s.publications;
            outbox = update (is_claimable now k) (take_lease now token) s.outbox;
          }))
  unfolding project
  lease-Turn now k token some_row =
      let test : Publication → Bool = λ q. q.operation_id == k in
      let change : Publication → Publication = λ q. record q { phase = "projecting" } in
      let own =
        pair_rows Agrees _ s.publications s.outbox agreeing
          (claimed_rows now k s.outbox keyed some_row) in
      moves (
        update-Pointwise test change (λ q. refl) s.publications
          (pair_publications _ (Allows test change)
            (λ p o (a, e) hit.
              let mine : (o.operation_id == k) ≡ true =
                ap (λ x. x == k) (sym a.same_operation) ∙ hit in
              let taken : is_claimable now k o ≡ true = e ∙ mine in
              let free : is_null o.completed_at ≡ true =
                unfold is_claimable in ground (arith, taken) in
              elim (open-cases p.phase (a.pending ∙ free)) [
                | inl e' ↦ rw e' starts
                | inr e' ↦ rw e' stays
              ])
            s.publications s.outbox
            (pair_both Agrees (λ p o. is_claimable now k o ≡ (o.operation_id == k)) s.publications
              s.outbox agreeing own)))

  pub finish-Turn :
      (now : ℕ) (k token phase code : String) (retry_after : ℕ)
      → (phase == "" || is_terminal phase) ≡ true
      → affected (is_owned now s.publications k token) s.outbox ≢ 0
      → Turn (view s) (
          view (record {
            publications = set_phase k (next_phase phase) (error_code phase code) s.publications;
            outbox =
                update
                  (is_owned now s.publications k token)
                  (acknowledge now phase retry_after)
                  s.outbox;
          }))
  unfolding set_phase
  finish-Turn now k token phase code retry_after fits some_row =
      let ps = s.publications in
      let test : Publication → Bool = λ q. q.operation_id == k in
      let change : Publication → Publication =
        λ q. record q { phase = next_phase phase; error_code = error_code phase code } in
      let in_progress : Publication → Bool =
        λ q. q.phase == "projecting" && not (has_newer ps q.sequence) in
      let regrouped : (id : String)
          → is_current ps id ≡ true
          → any (λ q. q.operation_id == id && in_progress q) ps ≡ true =
        λ id h.
          sym (
            any_assoc (λ q. q.operation_id == id) (λ q. q.phase == "projecting")
              (λ q. not (has_newer ps q.sequence)) ps)
          ∙ (unfold is_current in h) in
      let same = Paired-map Agrees IsSame (λ p o a. a.same_operation) ps s.outbox agreeing in
      let current = Paired-any in_progress ps s.outbox same keyed in
      let own =
        pair_rows Agrees _ ps s.outbox agreeing
          (owned_rows now ps k token s.outbox keyed some_row) in
      moves (
        update-Pointwise test change (λ q. refl) ps
          (pair_publications _ (Allows test change)
            (λ p o (a, (e, c)) hit.
              let mine : (o.operation_id == k) ≡ true =
                ap (λ x. x == k) (sym a.same_operation) ∙ hit in
              let held : is_owned now ps k token o ≡ true = e ∙ mine in
              let is_k : o.operation_id ≡ k = (eq_iff o.operation_id k).0 mine in
              let its_own : is_current ps o.operation_id ≡ true =
                ap (is_current ps) is_k ∙ (unfold is_owned in ground (arith, held)) in
              let projecting : (p.phase == "projecting") ≡ true =
                ground (arith, sym c ∙ regrouped o.operation_id its_own) in
              rw ((eq_iff p.phase "projecting").0 projecting) (finished phase fits))
            ps s.outbox
            (pair_both Agrees
              (λ p o.
                (is_owned now ps k token o ≡ (o.operation_id == k))
                × (any (λ q. q.operation_id == o.operation_id && in_progress q) ps ≡ in_progress p))
              ps s.outbox agreeing (pair_both _ _ ps s.outbox own current))))
