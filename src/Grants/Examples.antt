-- ===== src/Grants/Examples.antt =====
-- An access publication from its capture to its delivery, evaluated: tests and instances of the
-- properties.
use agent_enterprise_protoco.Common.{
  ℕ, ◌+◌, ◌≤◌, ◌<◌, String, ◌≡◌, refl, sym, ◌∙◌, ◌⊎◌, inl, inr, Bool, true, false, not, none, some,
  [], ◌∷◌, map, arith, ◌==◌, nat_eq, string_eq,
}
use agent_enterprise_protoco.Common.Results.{Result, ok, err}
use agent_enterprise_protoco.Common.Text.{trim_left, trim_right, trim_space, cons_trimmed, is_space}
use agent_enterprise_protoco.Publication.Tables.{update, affected}
use agent_enterprise_protoco.Publication.Delivery.{
  complete, is_unleased, take_lease, is_held, has_token, acknowledge, error_code,
}
use agent_enterprise_protoco.Publication.Queue.{new_row}
use agent_enterprise_protoco.Publication.Relay.{Projection, applied, transient, Limiter}
use agent_enterprise_protoco.Grants.Tables.{
  Stream, ModelAccessPublication, AccessTables, is_last_of, is_last, find_last, latest_access,
}
use agent_enterprise_protoco.Grants.Delivery.{
  AccessError, ModelAccessDelivery, is_due, is_waiting, due_rows, candidates, is_before, earlier,
  first_candidate, expire, lease_access, claim_value, claim_binding, ClaimedAccess, claim_access,
  is_capital, is_code_tail, is_error_code, is_bad_completion, is_timely, is_acknowledged,
  finish_row, finish_access, is_latest_access, is_same_intent, is_leased, is_checked,
  check_delivery,
}
use agent_enterprise_protoco.Grants.Queue.{
  stale, conflict, ModelAccessIntent, is_hex, is_hex_digest, starts_object, validate_access_intent,
  new_stream, ensure_stream, find_stream, is_at, find_at, is_same, is_overtaken, is_given_up,
  is_refused, Captured, new_access, confirm_work, insert_access, capture_after, capture_stream,
  capture_intent, queue_access,
}
use agent_enterprise_protoco.Grants.Holder.{IsHolder, finish_access-IsHolder}
use agent_enterprise_protoco.Grants.Checked.{IsKeyedAccess, claim_access-check_delivery}
use agent_enterprise_protoco.Grants.Captured.{IsCaptured, queue_access-IsCaptured}
use agent_enterprise_protoco.Grants.Relay.{
  Run, confirm_access, project_checked, project_intent, access_retry, is_lost_access,
  finish_attempt, deliver_access, after_claim, deliver_next,
}
use agent_enterprise_protoco.Grants.Vouched.{IsVouched, deliver_next-IsVouched}

run : Unit {0}
unfolding trim_left trim_right trim_space cons_trimmed is_space update affected complete is_unleased
    take_lease is_held has_token acknowledge error_code new_row is_last_of is_last find_last
    latest_access is_due is_waiting due_rows candidates is_before earlier first_candidate expire
    lease_access claim_value claim_binding claim_access is_capital is_code_tail is_error_code
    is_bad_completion is_timely is_acknowledged finish_row finish_access is_latest_access
    is_same_intent is_leased is_checked check_delivery is_hex is_hex_digest starts_object
    validate_access_intent new_stream ensure_stream find_stream is_at find_at is_same is_overtaken
    is_given_up is_refused new_access confirm_work insert_access capture_after capture_stream
    capture_intent queue_access confirm_access project_checked project_intent access_retry
    is_lost_access finish_attempt deliver_access after_claim deliver_next
run = tt

abbrev key : String
key = "00000000000000000000000000000000000000000000000000000000000000af"

abbrev intent : ℕ → String → ModelAccessIntent
intent version content = record {
  binding_key = key;
  subject_id = "u1";
  source_version = version;
  snapshot = record {
    deployment_id = "";
    revision = "r1";
    content_hash = content;
    payload = content;
  };
  issued_at = 1000;
  valid_until = 601000;
}

abbrev digest : String → String
digest text = text

abbrev is_json : String → Bool
is_json text = true

abbrev nothing : AccessTables
nothing = record { streams = []; publications = []; outbox = [] }

abbrev captured : Captured
captured = queue_access 2000 "d1" "op1" (intent 5 "{}") digest is_json nothing

abbrev first : ModelAccessPublication
first = record {
  deployment_id = "d1";
  binding_key = key;
  subject_id = "u1";
  operation_id = "op1";
  sequence = 1;
  source_version = 5;
  revision = "r1";
  content_hash = "{}";
  payload = "{}";
  issued_at = 1000;
  valid_until = 601000;
  phase = "queued";
  error_code = none;
  created_at = 2000;
}

abbrev stream : ℕ → Stream
stream version = record {
  binding_key = key;
  subject_id = "u1";
  last_source_version = version;
  last_sequence = 1;
}

abbrev queued : AccessTables
queued = record {
  streams = stream 5 ∷ [];
  publications = first ∷ [];
  outbox = new_row 2000 "op1" ∷ [];
}

captured_test : captured ≡ (ok first, queued)
unfolding run
captured_test = refl

-- An older source version is refused, the same version with another content too, and a newer one
-- with the same content is confirmed.
replay_test :
    ((queue_access 3000 "d1" "op2" (intent 4 "{}") digest is_json queued).0 ≡ err stale)
    × ((queue_access 3000 "d1" "op2" (intent 5 "{ }") digest is_json queued).0 ≡ err conflict)
    × (queue_access 3000 "d1" "op2" (intent 6 "{}") digest is_json queued
        ≡ (ok first, record queued { streams = stream 6 ∷ [] }))
unfolding run
replay_test = (refl, refl, refl)

-- A newer intent gives up the one before.
overtaken_test :
    map
      (λ p. p.phase)
      (queue_access 3000 "d1" "op2" (intent 6 "{ }") digest is_json queued).1.publications
    ≡ "queued" ∷ "superseded" ∷ []
unfolding run
overtaken_test = refl

nothing-IsKeyedAccess : IsKeyedAccess nothing
nothing-IsKeyedAccess = record {
  one_stream = λ r s i j e. absurd i;
  one_publication = λ p q i j e f. absurd i;
}

queue_access-IsCaptured_example :
    (validate_access_intent digest is_json "d1" (intent 5 "{}") ≡ true)
    × ((1000 ≤ 2000) × (2000 < 601000))
    × (IsCaptured (intent 5 "{}") first queued × Unit {0})
unfolding run
queue_access-IsCaptured_example =
    queue_access-IsCaptured digest is_json 2000 "d1" "op1" (intent 5 "{}") nothing queued first
      nothing-IsKeyedAccess refl

abbrev is_uuid : String → Bool
is_uuid text = not (text == "")

abbrev before : String → String → Bool
before a b = false

abbrev free : String → Bool
free binding_key = false

abbrev claimed : ClaimedAccess 2000 "t1"
claimed = claim_access 2000 "t1" before free queued

abbrev delivery : ModelAccessDelivery
delivery = record { publication = record first { phase = "projecting" }; claim_token = "t1" }

claimed_test : claimed.0 ≡ ok (some delivery)
unfolding run
claimed_test = refl

one : {R : Type 0} (x y z : R) → (x ≡ y) ⊎ ⊥ → (x ≡ z) ⊎ ⊥ → y ≡ z
one x y z (inl a) (inl b) = sym a ∙ b
one x y z (inl a) (inr b) = absurd b
one x y z (inr a) b = absurd a

queued-IsKeyedAccess : IsKeyedAccess queued
queued-IsKeyedAccess = record {
  one_stream = λ r s i j e. one (stream 5) r s i j;
  one_publication = λ p q i j e f. one first p q i j;
}

claim_access-check_delivery_example : check_delivery is_uuid 31999 "d1" delivery claimed.1 ≡ ok tt
unfolding run
claim_access-check_delivery_example =
    claim_access-check_delivery is_uuid "d1" 2000 31999 "t1" before free queued claimed.1 delivery
      queued-IsKeyedAccess refl refl refl (omega arith) (omega arith) (omega arith)

-- A grant that is out of date fails without being delivered.
expired_test : (claim_access 601000 "t1" before free queued).0 ≡ ok none
unfolding run
expired_test = refl

abbrev finished : Result AccessError (Unit {0}) × AccessTables
finished = finish_access is_uuid 4000 "op1" "t1" "projected" "" 0 claimed.1

finish_access-IsHolder_example : IsHolder 4000 "op1" "t1" claimed.1
unfolding run
finish_access-IsHolder_example =
    finish_access-IsHolder is_uuid 4000 "op1" "t1" "projected" "" 0 claimed.1 finished.1 refl

latest_test : is_latest_access 5000 "d1" first finished.1 ≡ true
unfolding run
latest_test = refl

abbrev counting : Limiter ℕ
counting = record { when = λ b id. (1000, b + 1); forget = λ b id. 0 }

abbrev once : Projection → Run
once outcome = record {
  claimed_at = 2000;
  checked_at = 2500;
  confirmed_at = 3000;
  finished_at = 3500;
  between_1 = λ t. t;
  between_2 = λ t. t;
  between_3 = λ t. t;
  token = "t1";
  locked = free;
  project = λ d. outcome;
}

abbrev ran : Projection → Result AccessError (Unit {0}) × (AccessTables × ℕ)
ran outcome = deliver_next is_uuid before "d1" (once outcome) counting queued 3

deliver_next-IsVouched_example : IsVouched is_uuid before "d1" (once applied) delivery claimed.1
unfolding run
deliver_next-IsVouched_example =
    deliver_next-IsVouched is_uuid before "d1" (once applied) counting queued claimed.1
      (ran applied).1.0 3 (ran applied).1.1 delivery refl refl

-- A transient failure waits for the limiter's delay.
retry_test :
    ((ran transient).1.1 ≡ 4)
    × (map (λ o. o.next_attempt_at) (ran transient).1.0.outbox ≡ 4500 ∷ [])
unfolding run
retry_test = (refl, refl)
