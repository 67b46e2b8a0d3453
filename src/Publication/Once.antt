-- ===== src/Publication/Once.antt =====
-- A request for a publication is carried out once: the idempotency keys of
-- data_plane_publications.go.
use agent_enterprise_protoco.Common.{ℕ, ◌<◌, String, ◌≡◌, refl, sym, ap, ◌∙◌, inl, inr, true, false, Option, none, some, List, [], ◌∷◌, ◌++◌, map, arith, eq_iff, eq_refl, if◌then◌else◌, Bool-cases, Option-cases, ◌==◌, nat_eq, string_eq, In, All-In}
use agent_enterprise_protoco.Common.Results.{Result-cases, Result, ok, err}
use mathlib.Core.Path.{subst}
use agent_enterprise_protoco.Publication.Tables.{Publication}
use agent_enterprise_protoco.Publication.Latest.{map_option}
use agent_enterprise_protoco.Publication.Lifecycle.{as_queued, intents}
use agent_enterprise_protoco.Publication.Queue.{
  Store, Snapshot, QueueError, Queued, key_conflict, revision_conflict, duplicate_key, find_key,
  save_snapshot, is_duplicate, new_publication, with_publication, is_same_content,
  insert_publication, repeated, queue_publication,
}
use agent_enterprise_protoco.Publication.Steps.{Steps}
use agent_enterprise_protoco.Publication.Sound.{IsSound, IsOrdered}
use agent_enterprise_protoco.Publication.Reachable.{queue-Advances, Steps-Advances}

find_key-map :
    (key : String) (ps : List Publication)
    → find_key key (map as_queued ps) ≡ map_option as_queued (find_key key ps)
unfolding find_key
find_key-map key [] = refl
find_key-map key (p ∷ ps) = elim (Bool-cases (p.idempotency_key_hash == key)) [
  | inl same ↦ rw same refl
  | inr other ↦ rw other (find_key-map key ps)
]

find_key-In :
    (key : String) (ps : List Publication) (p : Publication)
    → find_key key ps ≡ some p
    → In p ps × (p.idempotency_key_hash ≡ key)
unfolding find_key
find_key-In key [] p h = cc
find_key-In key (q ∷ ps) p h = elim (Bool-cases (q.idempotency_key_hash == key)) [
  | inl same ↦
      let h' : Path (Option Publication) (some q) (some p) = rw same at h in
      let q_is_p : q ≡ p = cc in
      (
        inl q_is_p,
        ap (λ (x : Publication). x.idempotency_key_hash) (sym q_is_p)
            ∙ (eq_iff q.idempotency_key_hash key).0 same,
      )
  | inr other ↦ let (i, e) = find_key-In key ps p (rw other at h) in (inr i, e)
]

-- New publications in front do not hide the one of a key, since each has a key of its own.
find_key-append :
    (key : String) (added ps : List Publication) (p : Publication)
    → IsOrdered (added ++ ps)
    → find_key key ps ≡ some p
    → find_key key (added ++ ps) ≡ some p
unfolding find_key
find_key-append key [] ps p ordered h = h
find_key-append key (a ∷ added) ps p (apart, ordered) h =
    let found = find_key-append key added ps p ordered h in
    let (i, own) = find_key-In key (added ++ ps) p found in
    let (_, other) =
      All-In
        (λ q.
          (q.sequence < a.sequence) × ((q.idempotency_key_hash == a.idempotency_key_hash) ≡ false))
        p (added ++ ps) i apart in
    let not_key : (a.idempotency_key_hash == key) ≡ false = ground (
      arith,
      other,
      own,
      eq_iff a.idempotency_key_hash key,
      eq_iff p.idempotency_key_hash a.idempotency_key_hash,
    ) in
    rw not_key found

some-cases :
    (found : Option Publication) (p : Publication)
    → map_option as_queued found ≡ some (as_queued p)
    → (q : Publication) × (found ≡ some q) × (as_queued q ≡ as_queued p)
some-cases none p h = cc
some-cases (some q) p h =
    let h' : Path (Option Publication) (some (as_queued q)) (some (as_queued p)) = h in
    let e : as_queued q ≡ as_queued p = cc in (q, refl, e)

abbrev IsAnswer : (key_hash request_hash : String) → Publication → Store → Type 0
IsAnswer key_hash request_hash p s =
    (find_key key_hash s.tables.publications ≡ some p) × ((p.request_hash == request_hash) ≡ true)

same-IsAnswer :
    (key_hash request_hash : String) (p q : Publication) (s t : Store)
    → Path Queued (ok p, s) (ok q, t)
    → IsAnswer key_hash request_hash p s
    → IsAnswer key_hash request_hash q t
same-IsAnswer key_hash request_hash p q s t h a =
    let same_p : p ≡ q = cc in
    let same_s : s ≡ t = cc in
    subst (λ x. IsAnswer key_hash request_hash x t) same_p
      (subst (λ x. IsAnswer key_hash request_hash p x) same_s a)

inserted-IsAnswer :
    (now : ℕ) (id key_hash request_hash actor : String) (n : Snapshot) (s s' : Store)
    (p : Publication)
    → insert_publication now id key_hash request_hash actor n s ≡ (ok p, s')
    → IsAnswer key_hash request_hash p s'
unfolding insert_publication with_publication new_publication find_key
inserted-IsAnswer now id key_hash request_hash actor n s s' p h =
    elim (Bool-cases (is_same_content n (save_snapshot n s.snapshots))) [
      | inr other ↦
          let h' : Path Queued (err revision_conflict, s) (ok p, s') =
            rw (insert_publication, other) at h in
          cc
      | inl same ↦ elim (Bool-cases (is_duplicate id key_hash s.tables)) [
        | inl taken ↦
            let h' : Path Queued (err duplicate_key, s) (ok p, s') =
              rw (insert_publication, same, taken) at h in
            cc
        | inr free ↦
            let new = new_publication id key_hash request_hash s.next_sequence n in
            let after = with_publication now actor new (save_snapshot n s.snapshots) s in
            let h' : Path Queued (ok new, after) (ok p, s') =
              rw (insert_publication, same, free) at h in
            same-IsAnswer key_hash request_hash new p after s' h'
              (rw (eq_refl key_hash) refl, eq_refl request_hash)
      ]
    ]

queued-IsAnswer :
    (now : ℕ) (id key_hash request_hash actor : String)
    (derive : Store → Result QueueError Snapshot) (s s' : Store) (p : Publication)
    → queue_publication now id key_hash request_hash actor derive s ≡ (ok p, s')
    → IsAnswer key_hash request_hash p s'
unfolding queue_publication repeated
queued-IsAnswer now id key_hash request_hash actor derive s s' p h =
    elim (Option-cases (find_key key_hash s.tables.publications)) [
      | inr (q, e) ↦ elim (Bool-cases (q.request_hash == request_hash)) [
        | inl same ↦
            let h' : Path Queued (ok q, s) (ok p, s') = rw (queue_publication, e, same) at h in
            same-IsAnswer key_hash request_hash q p s s' h' (e, same)
        | inr other ↦
            let h' : Path Queued (err key_conflict, s) (ok p, s') =
              rw (queue_publication, e, other) at h in
            cc
      ]
      | inl e ↦ elim (Result-cases (derive s)) [
        | inl (reason, d) ↦
            let h' : Path Queued (err reason, s) (ok p, s') = rw (queue_publication, e, d) at h in
            cc
        | inr (n, d) ↦
            inserted-IsAnswer now id key_hash request_hash actor n s s' p
              (rw (queue_publication, e, d) at h)
      ]
    ]

-- The answer of a known key.
known :
    (now : ℕ) (id key_hash request_hash actor : String)
    (derive : Store → Result QueueError Snapshot) (t : Store) (q : Publication)
    → find_key key_hash t.tables.publications ≡ some q
    → queue_publication now id key_hash request_hash actor derive t ≡ repeated request_hash q t
unfolding queue_publication
known now id key_hash request_hash actor derive t q e = rw (queue_publication, e) refl

repeated_as :
    (q : Publication) (t : Store) (request_hash other_hash : String)
    → q.request_hash ≡ request_hash
    → Path Queued
        (repeated other_hash q t)
        (if other_hash == request_hash then ok q else err key_conflict, t)
unfolding repeated
repeated_as q t request_hash other_hash e = elim (Bool-cases (other_hash == request_hash)) [
  | inl same ↦
      let hit : (q.request_hash == other_hash) ≡ true =
        (eq_iff q.request_hash other_hash).1 (e ∙ sym ((eq_iff other_hash request_hash).0 same)) in
      rw (hit, same) refl
  | inr other ↦
      let missed : (q.request_hash == other_hash) ≡ false =
        ground
          (arith, other, e, eq_iff q.request_hash other_hash, eq_iff other_hash request_hash) in
      rw (missed, other) refl
]

repeated_same :
    (q : Publication) (t : Store) (request_hash : String)
    → q.request_hash ≡ request_hash
    → Path Queued (repeated request_hash q t) (ok q, t)
unfolding repeated
repeated_same q t request_hash e = rw ((eq_iff q.request_hash request_hash).1 e) refl

-- A request is carried out once. When a request with a key has succeeded, then later, after any
-- transactions in any order, a request with the key finds the publication that the first one queued,
-- whatever phase it is in, and changes nothing: it is answered with that publication if it is the
-- same request, and refused if it is another.
pub queue_once :
    (now later : ℕ) (id id' key_hash request_hash other_hash actor actor' : String)
    (derive derive' : Store → Result QueueError Snapshot) (s s' t : Store) (p : Publication)
    → IsSound s
    → queue_publication now id key_hash request_hash actor derive s ≡ (ok p, s')
    → Steps s' t
    → (q : Publication) × (as_queued q ≡ as_queued p)
      × (queue_publication later id' key_hash request_hash actor' derive' t ≡ (ok q, t))
      × (queue_publication later id' key_hash other_hash actor' derive' t
          ≡ (if other_hash == request_hash then ok q else err key_conflict, t))
queue_once now later id id' key_hash request_hash other_hash actor actor' derive derive' s s' t p
      sound h steps =
    let (found, same) = queued-IsAnswer now id key_hash request_hash actor derive s s' p h in
    let at_s' : IsSound s' =
      subst (λ (r : Queued). IsSound r.1) h
        (queue-Advances s sound now id key_hash request_hash actor derive).sound in
    let a = Steps-Advances steps at_s' in
    let before : find_key key_hash (intents s'.tables) ≡ some (as_queued p) =
      find_key-map key_hash s'.tables.publications ∙ ap (map_option as_queued) found in
    let ordered : IsOrdered (a.added ++ intents s'.tables) =
      subst IsOrdered a.grown a.sound.ordered in
    let after : find_key key_hash (intents t.tables) ≡ some (as_queued p) =
      ap (find_key key_hash) a.grown
      ∙ find_key-append key_hash a.added (intents s'.tables) (as_queued p) ordered before in
    let (q, e, as_p) =
      some-cases (find_key key_hash t.tables.publications) p
        (sym (find_key-map key_hash t.tables.publications) ∙ after) in
    let q_request : q.request_hash ≡ request_hash =
      ap (λ (x : Publication). x.request_hash) as_p ∙ (eq_iff p.request_hash request_hash).0 same in
    (
      q,
      as_p,
      known later id' key_hash request_hash actor' derive' t q e
          ∙ repeated_same q t request_hash q_request,
      known later id' key_hash other_hash actor' derive' t q e
          ∙ repeated_as q t request_hash other_hash q_request,
    )
