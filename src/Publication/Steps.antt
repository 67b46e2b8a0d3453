-- ===== src/Publication/Steps.antt =====
-- The store of the publications as its transactions leave it, one after the other: the steps of
-- data_plane_publications.go, publication_replay.go, publication_invalidation.go and
-- publication_delivery.go, and what holds of every store that they reach.
use agent_enterprise_protoco.Common.{
  ℕ, String, ◌≡◌, refl, ◌∙◌, ◌≢◌, inl, inr, Bool, true, false, not, ◌&&◌, ◌||◌, Option, List, [],
  ◌∷◌, map, arith, Bool-cases, Option-cases, ◌==◌, nat_eq, string_eq,
}
use agent_enterprise_protoco.Common.Results.{Result}
use agent_enterprise_protoco.Publication.Tables.{
  Publication, Tables, update, affected, is_open, latest,
}
use agent_enterprise_protoco.Publication.Latest.{IsKeyed}
use agent_enterprise_protoco.Publication.Pairing.{Paired}
use agent_enterprise_protoco.Publication.Agreement.{
  Agrees, sweep-Agrees, lease-Agrees, finish-Agrees,
}
use agent_enterprise_protoco.Publication.Lifecycle.{
  as_queued, intents, view, Turns, rests, ◌next◌, Turns-trans, sweep-Turn, lease-Turn, finish-Turn,
}
use agent_enterprise_protoco.Publication.Lease.{update-IsKeyed}
use agent_enterprise_protoco.Publication.Delivery.{
  Inputs, supersede, retire, complete, is_claimable, take_lease, project, deliver, sweep,
  claim_latest, claim_publication, is_terminal, set_phase, is_owned, acknowledge,
  finish_publication,
}
use agent_enterprise_protoco.Publication.Queue.{
  Store, Snapshot, QueueError, queue_publication, replay_publication,
}
use agent_enterprise_protoco.Publication.Invalidation.{References, queue_reference_invalidations}

-- One transaction of one of the workers or of a request.
pub data Step : Store → Store → Type 0 where
  queues :
      (now : ℕ) (id key_hash request_hash actor : String)
      (derive : Store → Result QueueError Snapshot) (s : Store)
      → Step s (queue_publication now id key_hash request_hash actor derive s).1
  replays :
      (now : ℕ) (source_id id key_hash request_hash actor : String) (s : Store)
      → Step s (replay_publication now source_id id key_hash request_hash actor s).1
  invalidates :
      (now : ℕ) (locked : Bool) (id nonce : String) (r : References) (s : Store)
      → Step s (queue_reference_invalidations now locked id nonce r s).1
  claims :
      (inputs : Publication → Option Inputs) (now : ℕ) (token : String) (locked : Bool) (s : Store)
      → Step s (record s { tables = (claim_publication inputs now token locked s.tables).1 })
  finishes :
      (now : ℕ) (operation_id token phase code : String) (retry_after : ℕ) (s : Store)
      → Step s (record s {
        tables = (finish_publication now operation_id token phase code retry_after s.tables).1;
      })
  -- The triggers of migration 048, when a model or a subject of a limit is removed.
  signals :
      (version : ℕ) (s : Store)
      → Step s (record s { signal = record s.signal { version = version } })

infixr 5 ◌then◌
pub data Steps : Store → Store → Type 0 where
  done : {s : Store} → Steps s s
  ◌then◌ : {s t u : Store} → Step s t → Steps t u → Steps s u

update_intents :
    (test : Publication → Bool) (change : Publication → Publication)
    → ((p : Publication) → as_queued (change p) ≡ as_queued p)
    → (ps : List Publication) → map as_queued (update test change ps) ≡ map as_queued ps
unfolding update
update_intents test change same [] = refl
update_intents test change same (p ∷ ps) = elim (Bool-cases (test p)) [
  | inl hit ↦ rw (hit, same p, update_intents test change same ps) refl
  | inr missed ↦ rw (missed, update_intents test change same ps) refl
]

-- What a transaction of the delivery keeps.
pub record Keeps (s t : Tables) : Type 0 where
  pub keyed : IsKeyed t.outbox
  pub agreeing : Paired Agrees t.publications t.outbox
  pub same_intents : intents t ≡ intents s
  pub turns : Turns (view s) (view t)

module _ (s : Tables) (keyed : IsKeyed s.outbox)
    (agreeing : Paired Agrees s.publications s.outbox) where
  unchanged-Keeps : Keeps s s
  unchanged-Keeps = record {
    keyed = keyed;
    agreeing = agreeing;
    same_intents = refl;
    turns = rests;
  }

  sweep-Keeps : (now : ℕ) (p : Publication) → Keeps s (sweep now p s)
  unfolding sweep
  sweep-Keeps now p = record {
    keyed =
        unfold retire in
        update-IsKeyed _ (complete now) (λ o. unfold complete in refl) s.outbox keyed;
    agreeing = sweep-Agrees now p.sequence s.publications s.outbox keyed agreeing;
    same_intents = unfold supersede in update_intents _ _ (λ q. refl) s.publications;
    turns = sweep-Turn now p s next rests;
  }

  lease-Keeps :
      (now : ℕ) (k token : String)
      → affected (is_claimable now k) s.outbox ≢ 0
      → Keeps s (record {
        publications = project k s.publications;
        outbox = update (is_claimable now k) (take_lease now token) s.outbox;
      })
  lease-Keeps now k token some_row = record {
    keyed =
        update-IsKeyed (is_claimable now k) (take_lease now token) (λ o. unfold take_lease in refl)
          s.outbox keyed;
    agreeing = lease-Agrees now k token s.publications s.outbox keyed some_row agreeing;
    same_intents = unfold project in update_intents _ _ (λ q. refl) s.publications;
    turns = lease-Turn s keyed agreeing now k token some_row next rests;
  }

  pub finish-Keeps :
      (now : ℕ) (k token phase code : String) (retry_after : ℕ)
      → Keeps s (finish_publication now k token phase code retry_after s).1
  unfolding finish_publication
  finish-Keeps now k token phase code retry_after =
      let owned = is_owned now s.publications k token in
      elim (Bool-cases (not (phase == "") && not (is_terminal phase))) [
        | inl bad ↦ rw bad unchanged-Keeps
        | inr good ↦ elim (Bool-cases (affected owned s.outbox == 1)) [
          | inl one ↦
              let some_row : affected owned s.outbox ≢ 0 = λ e. ground (arith, e, one) in
              let fits : (phase == "" || is_terminal phase) ≡ true = ground (arith, good) in
              rw (good, one)
                (record {
                  keyed =
                      update-IsKeyed owned (acknowledge now phase retry_after)
                        (λ o. unfold acknowledge in refl) s.outbox keyed;
                  agreeing =
                      finish-Agrees now k token phase code retry_after s.publications fits
                        s.publications s.outbox keyed some_row agreeing;
                  same_intents = unfold set_phase in update_intents _ _ (λ q. refl) s.publications;
                  turns =
                      finish-Turn s keyed agreeing now k token phase code retry_after fits some_row
                      next rests;
                })
          | inr not_one ↦ rw (good, not_one) unchanged-Keeps
        ]
      ]

Keeps-trans : (s t u : Tables) → Keeps s t → Keeps t u → Keeps s u
Keeps-trans s t u h k = record {
  keyed = k.keyed;
  agreeing = k.agreeing;
  same_intents = k.same_intents ∙ h.same_intents;
  turns = Turns-trans h.turns k.turns;
}

module _ (inputs : Publication → Option Inputs) (now : ℕ) (token : String) (s : Tables)
    (keyed : IsKeyed s.outbox) (agreeing : Paired Agrees s.publications s.outbox) where
  claim_latest-Keeps : (p : Publication) → Keeps s (claim_latest inputs now token p s).1
  unfolding claim_latest deliver
  claim_latest-Keeps p =
      let swept = sweep now p s in
      let k = sweep-Keeps s keyed agreeing now p in
      elim (Bool-cases (is_open p.phase)) [
        | inr closed ↦ rw closed k
        | inl open_phase ↦
            elim (Bool-cases (affected (is_claimable now p.operation_id) swept.outbox == 0)) [
              | inl none_free ↦ rw (open_phase, none_free) k
              | inr some_free ↦
                  let some_row : affected (is_claimable now p.operation_id) swept.outbox ≢ 0 =
                    λ e. ground (arith, e, some_free) in
                  elim (Option-cases (inputs p)) [
                    | inl e ↦
                        rw (open_phase, some_free, deliver, e) (unchanged-Keeps s keyed agreeing)
                    | inr (i, e) ↦
                        rw (open_phase, some_free, deliver, e)
                          (Keeps-trans s swept _ k (
                            lease-Keeps swept k.keyed k.agreeing now p.operation_id token some_row))
                  ]
            ]
      ]

  pub claim-Keeps : (locked : Bool) → Keeps s (claim_publication inputs now token locked s).1
  unfolding claim_publication
  claim-Keeps false = unchanged-Keeps s keyed agreeing
  claim-Keeps true = elim (Option-cases (latest s.publications)) [
    | inl e ↦ rw e (unchanged-Keeps s keyed agreeing)
    | inr (p, e) ↦ rw e (claim_latest-Keeps p)
  ]
