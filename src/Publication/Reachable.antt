-- ===== src/Publication/Reachable.antt =====
-- Every transaction on the publications keeps the store sound and is a sequence of turns of the
-- abstract queue: data_plane_publications.go, publication_replay.go, publication_invalidation.go and
-- publication_delivery.go, one after the other.
use agent_enterprise_protoco.Common.{
  ℕ, String, refl, sym, ap, ◌∙◌, inl, inr, Bool, true, false, not, ◌||◌, [], ◌++◌, if◌then◌else◌,
  Bool-cases, Option-cases, ◌==◌, nat_eq, string_eq,
}
use agent_enterprise_protoco.Common.Results.{Result-cases, Result, ok, err}
use mathlib.Core.List.{append_assoc}
use agent_enterprise_protoco.Publication.Tables.{Publication, latest}
use agent_enterprise_protoco.Publication.Selection.{invalidate_selected}
use agent_enterprise_protoco.Publication.Queue.{
  Store, Snapshot, QueueError, Queued, find_snapshot, find_key, find_operation, repeated,
  queue_publication, replay_latest, replay_publication, is_pending, latest_payload,
}
use agent_enterprise_protoco.Publication.Invalidation.{
  References, acknowledge_signal, withdrawal, note_invalidation, finish_invalidation, withdraw,
  invalidate_payload, latest_sequence, queue_reference_invalidations,
}
use agent_enterprise_protoco.Publication.Lifecycle.{view, Turns, rests, Turns-trans}
use agent_enterprise_protoco.Publication.Steps.{
  Step, queues, replays, invalidates, claims, finishes, signals, Steps, done, ◌then◌, claim-Keeps,
  finish-Keeps,
}
use agent_enterprise_protoco.Publication.Sound.{
  Advances, IsSound, unchanged, delivered, insert_publication-Advances,
}

module _ (s : Store) (h : IsSound s) where
  repeated-Advances :
      (request_hash : String) (p : Publication) → Advances s (repeated request_hash p s).1
  unfolding repeated
  repeated-Advances request_hash p = elim (Bool-cases (p.request_hash == request_hash)) [
    | inl e ↦ rw e (unchanged s h)
    | inr e ↦ rw e (unchanged s h)
  ]

  pub queue-Advances :
      (now : ℕ) (id key_hash request_hash actor : String)
      (derive : Store → Result QueueError Snapshot)
      → Advances s (queue_publication now id key_hash request_hash actor derive s).1
  unfolding queue_publication
  queue-Advances now id key_hash request_hash actor derive =
      elim (Option-cases (find_key key_hash s.tables.publications)) [
        | inr (p, e) ↦ rw (queue_publication, e) (repeated-Advances request_hash p)
        | inl e ↦ elim (Result-cases (derive s)) [
          | inl (reason, d) ↦ rw (queue_publication, e, d) (unchanged s h)
          | inr (n, d) ↦
              rw (queue_publication, e, d)
                (insert_publication-Advances s h now id key_hash request_hash actor n)
        ]
      ]

  replay_latest-Advances :
      (now : ℕ) (id key_hash request_hash actor : String) (source newest : Publication)
      → Advances s (replay_latest now id key_hash request_hash actor source newest s).1
  unfolding replay_latest
  replay_latest-Advances now id key_hash request_hash actor source newest =
      elim (Bool-cases (
        not (newest.operation_id == source.operation_id)
        || not (newest.sequence == source.sequence))) [
          | inl other ↦ rw other (unchanged s h)
          | inr same ↦ elim (Bool-cases (is_pending s.signal)) [
            | inl pending ↦ rw (same, pending) (unchanged s h)
            | inr quiet ↦ elim (Option-cases (find_snapshot source.revision s.snapshots)) [
              | inl e ↦ rw (same, quiet, e) (unchanged s h)
              | inr (n, e) ↦ elim (Bool-cases (n.content_hash == source.content_hash)) [
                | inr changed ↦ rw (same, quiet, e, changed) (unchanged s h)
                | inl kept ↦
                    rw (same, quiet, e, kept)
                      (insert_publication-Advances s h now id key_hash request_hash actor n)
              ]
            ]
          ]
        ]

  replay-Advances :
      (now : ℕ) (source_id id key_hash request_hash actor : String)
      → Advances s (replay_publication now source_id id key_hash request_hash actor s).1
  unfolding replay_publication
  replay-Advances now source_id id key_hash request_hash actor =
      elim (Option-cases (find_key key_hash s.tables.publications)) [
        | inr (p, e) ↦ rw (replay_publication, e) (repeated-Advances request_hash p)
        | inl e ↦ elim (Option-cases (find_operation source_id s.tables.publications)) [
          | inl f ↦ rw (replay_publication, e, f) (unchanged s h)
          | inr (source, f) ↦ elim (Option-cases (latest s.tables.publications)) [
            | inl g ↦ rw (replay_publication, e, f, g) (unchanged s h)
            | inr (newest, g) ↦
                rw (replay_publication, e, f, g)
                  (replay_latest-Advances now id key_hash request_hash actor source newest)
          ]
        ]
      ]

  -- The audit and the signal say nothing of the publications.
  noted :
      (t : Store) (p : Publication)
      → Advances s t
      → Advances s (acknowledge_signal (note_invalidation p t))
  unfolding acknowledge_signal note_invalidation
  noted t p a = record {
    sound = record {
      keyed = a.sound.keyed;
      agreeing = a.sound.agreeing;
      ordered = a.sound.ordered;
      fresh = a.sound.fresh;
      stored = a.sound.stored;
    };
    added = a.added;
    grown = a.grown;
    turns = a.turns;
  }

  acknowledged : Advances s (acknowledge_signal s)
  unfolding acknowledge_signal
  acknowledged = record {
    sound = record {
      keyed = h.keyed;
      agreeing = h.agreeing;
      ordered = h.ordered;
      fresh = h.fresh;
      stored = h.stored;
    };
    added = [];
    grown = refl;
    turns = rests;
  }

  finish_invalidation-Advances :
      (q : Queued) → Advances s q.1 → Advances s (finish_invalidation s q).1
  unfolding finish_invalidation
  finish_invalidation-Advances (err e, t) a = unchanged s h
  finish_invalidation-Advances (ok p, t) a = noted t p a

  invalidate_payload-Advances :
      (now : ℕ) (id nonce : String) (r : References) (sequence : ℕ) (payload : String)
      → Advances s (invalidate_payload now id nonce r sequence payload s).1
  unfolding invalidate_payload withdraw
  invalidate_payload-Advances now id nonce r sequence payload =
      elim (Result-cases (r.decode payload)) [
        | inl (reason, e) ↦ rw (invalidate_payload, e) (unchanged s h)
        | inr (state, e) ↦
            let (state', changed) = invalidate_selected state r.ids (r.removed sequence) r.fences in
            elim (Bool-cases changed) [
              | inr same ↦ rw (invalidate_payload, e, same) acknowledged
              | inl moved ↦
                  rw (invalidate_payload, e, moved, withdraw)
                    (finish_invalidation-Advances _ (
                      insert_publication-Advances s h now id (r.digest nonce)
                        (r.digest "reference-removal") "" (withdrawal r state')))
            ]
      ]

  pub invalidations-Advances :
      (now : ℕ) (locked : Bool) (id nonce : String) (r : References)
      → Advances s (queue_reference_invalidations now locked id nonce r s).1
  unfolding queue_reference_invalidations
  invalidations-Advances now false id nonce r = unchanged s h
  invalidations-Advances now true id nonce r = elim (Bool-cases (is_pending s.signal)) [
    | inr quiet ↦ rw quiet (unchanged s h)
    | inl pending ↦ elim (Option-cases (latest_payload s)) [
      | inl e ↦ rw (pending, e) acknowledged
      | inr (payload, e) ↦
          rw (pending, e) (invalidate_payload-Advances now id nonce r (latest_sequence s) payload)
    ]
  ]

step-Advances : {s t : Store} → Step s t → IsSound s → Advances s t
step-Advances (queues now id key_hash request_hash actor derive s) h =
    queue-Advances s h now id key_hash request_hash actor derive
step-Advances (replays now source_id id key_hash request_hash actor s) h =
    replay-Advances s h now source_id id key_hash request_hash actor
step-Advances (invalidates now locked id nonce r s) h =
    invalidations-Advances s h now locked id nonce r
step-Advances (claims inputs now token locked s) h =
    delivered s h _ (claim-Keeps inputs now token s.tables h.keyed h.agreeing locked)
step-Advances (signals version s) h = record {
  sound = record {
    keyed = h.keyed;
    agreeing = h.agreeing;
    ordered = h.ordered;
    fresh = h.fresh;
    stored = h.stored;
  };
  added = [];
  grown = refl;
  turns = rests;
}
step-Advances (finishes now operation_id token phase code retry_after s) h =
    delivered s h _
      (finish-Keeps s.tables h.keyed h.agreeing now operation_id token phase code retry_after)

pub Steps-Advances : {s t : Store} → Steps s t → IsSound s → Advances s t
Steps-Advances {s} done h = unchanged s h
Steps-Advances (step then steps) h =
    let a = step-Advances step h in
    let b = Steps-Advances steps a.sound in
    record {
      sound = b.sound;
      added = b.added ++ a.added;
      grown = b.grown ∙ ap (λ ps. b.added ++ ps) a.grown ∙ sym (append_assoc b.added a.added _);
      turns = Turns-trans a.turns b.turns;
    }

-- Before the first request.
abbrev pub empty_store : Store
empty_store = record {
  tables = record { publications = []; outbox = [] };
  snapshots = [];
  next_sequence = 1;
  audit = [];
  signal = record { version = 0; acknowledged_version = 0 };
}

-- Every store that requests, replays, invalidations, claims and acknowledgements reach from the empty
-- one, in any order and with any outcome, is sound: each publication has its own row in the outbox,
-- which is open exactly while its phase is "queued" or "projecting" and leased only while it is
-- "projecting"; it has an error code exactly when it has failed; its snapshot is stored; and the
-- newest is the one queued last, with sequence numbers and keys that no other has.
pub Steps-IsSound : (s : Store) → Steps empty_store s → IsSound s
Steps-IsSound s steps =
    (Steps-Advances steps
      (record { keyed = tt; agreeing = tt; ordered = tt; fresh = tt; stored = tt })).sound

-- The transactions implement the abstract queue, in which publications are only queued in front and
-- each keeps what it asked for while it goes from waiting to delivering and back, is given up while
-- waiting, or is closed by a delivery: every transaction on a sound store is a sequence of turns of
-- the abstract queue, from what the store shows before to what it shows after.
pub step-Turns : (s t : Store) → IsSound s → Step s t → Turns (view s.tables) (view t.tables)
step-Turns s t h step = (step-Advances step h).turns
