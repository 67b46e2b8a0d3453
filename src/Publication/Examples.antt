-- ===== src/Publication/Examples.antt =====
-- Two publications delivered, evaluated: tests and instances of the properties of the delivery.
use agent_enterprise_protoco.Common.{
  ℕ, String, ◌≡◌, refl, ◌⊎◌, inl, inr, true, Option, none, some, [], ◌∷◌, map, arith, nat_eq,
  string_eq,
}
use agent_enterprise_protoco.Common.Results.{Result, ok, err}
use agent_enterprise_protoco.Publication.Tables.{
  Publication, OutboxRow, Tables, update, affected, newer, latest,
}
use agent_enterprise_protoco.Publication.Latest.{IsKeyed}
use agent_enterprise_protoco.Publication.Delivery.{
  DeliveryError, claim_lost, invalid_phase, Inputs, PublicationDelivery, supersede, retire,
  is_retired, complete, is_superseded, is_unleased, is_claimable, take_lease, set_phase, project,
  deliver, sweep, claim_latest, claim_publication, is_terminal, has_newer, is_current, is_held,
  has_token, is_owned, acknowledge, error_code, finish_publication,
}
use agent_enterprise_protoco.Publication.Lease.{claim_exclusive}
use agent_enterprise_protoco.Publication.Completion.{IsOwner, finish-IsOwner, finish_fenced}
use agent_enterprise_protoco.Publication.Round.{claim-finish}

abbrev intent : String → ℕ → String → Publication
intent id sequence phase = record {
  operation_id = id;
  sequence = sequence;
  idempotency_key_hash = id;
  request_hash = "q";
  revision = "r";
  content_hash = "h";
  phase = phase;
  error_code = none;
}

abbrev waiting : String → OutboxRow
waiting id = record {
  operation_id = id;
  claim_token = none;
  lease_until = none;
  attempts = 0;
  next_attempt_at = 0;
  completed_at = none;
}

-- The newer intent stands first.
abbrev tables : Tables
tables = record {
  publications = intent "b" 2 "queued" ∷ intent "a" 1 "queued" ∷ [];
  outbox = waiting "a" ∷ waiting "b" ∷ [];
}

abbrev inputs : Publication → Option Inputs
inputs p = some (record { payload = p.revision; historical_routes = "[]" })

abbrev claimed : Result DeliveryError (Option PublicationDelivery) × Tables
claimed = claim_publication inputs 1000 "t" true tables

abbrev delivery : PublicationDelivery
delivery = record {
  publication = intent "b" 2 "projecting";
  claim_token = "t";
  inputs = record { payload = "r"; historical_routes = "[]" };
}

run : Unit {0}
unfolding update affected newer latest supersede retire is_retired complete is_superseded
    is_unleased is_claimable take_lease set_phase project deliver sweep claim_latest
    claim_publication is_terminal has_newer is_current is_held has_token is_owned acknowledge
    error_code finish_publication
run = tt

-- The newer intent is delivered and the older one is given up, in both tables.
claimed_test :
    (claimed.0 ≡ ok (some delivery))
    × (map (λ p. p.phase) claimed.1.publications ≡ "projecting" ∷ "superseded" ∷ [])
    × (map (λ o. o.lease_until) claimed.1.outbox ≡ none ∷ some 31000 ∷ [])
    × (map (λ o. o.completed_at) claimed.1.outbox ≡ some 1000 ∷ none ∷ [])
unfolding run
claimed_test = (refl, refl, refl, refl)

tables-IsKeyed : IsKeyed tables.outbox
tables-IsKeyed = ((refl, tt), (tt, tt))

claim_exclusive_example : (claim_publication inputs 30999 "u" true claimed.1).0 ≡ ok none
unfolding run
claim_exclusive_example =
    claim_exclusive inputs inputs 1000 30999 "t" "u" true tables claimed.1 delivery tables-IsKeyed
      refl (omega arith)

claim-finish_example : (finish_publication 2000 "b" "t" "projected" "" 0 claimed.1).0 ≡ ok tt
unfolding run
claim-finish_example =
    claim-finish inputs 1000 2000 "t" "projected" "" 0 tables claimed.1 delivery tables-IsKeyed refl
      (omega arith) refl

finish-IsOwner_example : IsOwner 2000 "b" "t" claimed.1
unfolding run
finish-IsOwner_example =
    finish-IsOwner 2000 "b" "t" "projected" "" 0 claimed.1
      (finish_publication 2000 "b" "t" "projected" "" 0 claimed.1).1 refl

-- A third intent arrives while the second is being delivered.
abbrev overtaken : Tables
overtaken = record claimed.1 { publications = intent "c" 3 "queued" ∷ claimed.1.publications }

finish_fenced_example :
    let (result, s') = finish_publication 2000 "b" "t" "projected" "" 0 overtaken in
    (s' ≡ overtaken) × ((result ≡ err claim_lost) ⊎ (result ≡ err invalid_phase))
unfolding run
finish_fenced_example =
    finish_fenced 2000 "b" "t" "projected" "" 0 overtaken (intent "c" 3 "queued") (inl refl)
      (inl refl, (inr (omega arith), (inl refl, tt)))
