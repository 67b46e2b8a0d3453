-- ===== src/Publication/Sound.antt =====
-- What holds of every store that the transactions on publications reach, one after the other.
use agent_enterprise_protoco.Common.{
  ℕ, ◌<◌, String, ◌≡◌, refl, sym, ap, ◌∙◌, inl, inr, Bool, true, false, none, some, List, [], ◌∷◌,
  ◌++◌, map, arith, eq_iff, Bool-cases, Option-cases, any, All, All-map, ◌==◌, nat_eq, string_eq,
}
use mathlib.Core.Path.{subst}
use agent_enterprise_protoco.Publication.Tables.{Publication, Tables}
use agent_enterprise_protoco.Publication.Latest.{IsKeyed}
use agent_enterprise_protoco.Publication.Pairing.{Paired}
use agent_enterprise_protoco.Publication.Agreement.{Agrees}
use agent_enterprise_protoco.Publication.Delivery.{is_terminal}
use agent_enterprise_protoco.Publication.Queue.{
  Store, Snapshot, find_snapshot, save_snapshot, is_duplicate, new_publication, new_row,
  with_publication, is_same_content, insert_publication,
}
use agent_enterprise_protoco.Publication.Lifecycle.{
  as_queued, intents, view, Turns, rests, ◌next◌, enqueues,
}
use agent_enterprise_protoco.Publication.Steps.{Keeps}

-- Newest first, each with a key of its own.
abbrev pub IsOrdered : List Publication → Type 0
IsOrdered [] = Unit
IsOrdered (p ∷ ps) =
    All
      (λ q.
        (q.sequence < p.sequence) × ((q.idempotency_key_hash == p.idempotency_key_hash) ≡ false))
      ps
    × IsOrdered ps

-- The snapshot that a publication names is stored.
unfoldable pub is_stored : List Snapshot → Publication → Bool
is_stored ns p = elim (find_snapshot p.revision ns) [
  | none ↦ false
  | some n ↦ n.content_hash == p.content_hash
]

pub record IsSound (s : Store) : Type 0 where
  pub keyed : IsKeyed s.tables.outbox
  pub agreeing : Paired Agrees s.tables.publications s.tables.outbox
  pub ordered : IsOrdered (intents s.tables)
  pub fresh : All (λ p. p.sequence < s.next_sequence) (intents s.tables)
  pub stored : All (λ p. is_stored s.snapshots p ≡ true) (intents s.tables)

-- The store has stayed sound, its intents are those of before with new ones in front, and the
-- abstract queue has taken the turns that lead to what it shows now.
pub record Advances (s t : Store) : Type 0 where
  pub sound : IsSound t
  pub added : List Publication
  pub grown : intents t.tables ≡ added ++ intents s.tables
  pub turns : Turns (view s.tables) (view t.tables)

any_none : {A : Type 0} (f : A → Bool) (xs : List A) → any f xs ≡ false → All (λ x. f x ≡ false) xs
any_none f [] h = tt
any_none f (x ∷ xs) h = (ground arith, any_none f xs (ground arith))

hold_both :
    {A : Type 0} (P Q : A → Type 0) (xs : List A) → All P xs → All Q xs → All (λ x. P x × Q x) xs
hold_both P Q [] h k = tt
hold_both P Q (x ∷ xs) (p, h) (q, k) = ((p, q), hold_both P Q xs h k)

All-queued :
    (P : Publication → Type 0) (ps : List Publication)
    → All (λ p. P (as_queued p)) ps
    → All P (map as_queued ps)
All-queued P [] h = tt
All-queued P (p ∷ ps) (q, h) = (q, All-queued P ps h)

save_keeps :
    (n : Snapshot) (ns : List Snapshot) (p : Publication)
    → is_stored ns p ≡ true
    → is_stored (save_snapshot n ns) p ≡ true
unfolding save_snapshot is_stored find_snapshot
save_keeps n ns p h = elim (Option-cases (find_snapshot n.revision ns)) [
  | inr (m, e) ↦ rw (save_snapshot, e) h
  | inl e ↦ elim (Bool-cases (n.revision == p.revision)) [
    | inr other ↦ rw (save_snapshot, e, is_stored, find_snapshot, other) h
    | inl same ↦
        let missing : find_snapshot p.revision ns ≡ none =
          ap (λ r. find_snapshot r ns) (sym ((eq_iff n.revision p.revision).0 same)) ∙ e in
        let h' : Path Bool false true = rw (is_stored, missing) at h in cc
  ]
]

module _ (s : Store) (h : IsSound s) where
  pub unchanged : Advances s s
  unchanged = record { sound = h; added = []; grown = refl; turns = rests }

  pub delivered : (t : Tables) → Keeps s.tables t → Advances s (record s { tables = t })
  delivered t k = record {
    sound = record {
      keyed = k.keyed;
      agreeing = k.agreeing;
      ordered = subst IsOrdered (sym k.same_intents) h.ordered;
      fresh = subst (All (λ p. p.sequence < s.next_sequence)) (sym k.same_intents) h.fresh;
      stored = subst (All (λ p. is_stored s.snapshots p ≡ true)) (sym k.same_intents) h.stored;
    };
    added = [];
    grown = k.same_intents;
    turns = k.turns;
  }

  inserted :
      (now : ℕ) (id key_hash request_hash actor : String) (n : Snapshot)
      → is_same_content n (save_snapshot n s.snapshots) ≡ true
      → is_duplicate id key_hash s.tables ≡ false
      → Advances s (
          with_publication now actor
            (new_publication id key_hash request_hash s.next_sequence n)
            (save_snapshot n s.snapshots)
            s)
  unfolding with_publication new_publication new_row is_duplicate is_same_content is_stored
      is_terminal
  inserted now id key_hash request_hash actor n same free =
      let p = new_publication id key_hash request_hash s.next_sequence n in
      let keys =
        any_none (λ q. q.idempotency_key_hash == key_hash) s.tables.publications
          (ground (arith, free)) in
      let rows = any_none (λ o. o.operation_id == id) s.tables.outbox (ground (arith, free)) in
      record {
        sound = record {
          keyed = (rows, h.keyed);
          agreeing = (
            record {
              same_operation = refl;
              named = refl;
              coded = refl;
              pending = refl;
              held = refl;
              leased = refl;
            },
            h.agreeing,
          );
          ordered = (
            hold_both _ _ (intents s.tables) h.fresh (All-queued _ s.tables.publications keys),
            h.ordered,
          );
          fresh = (omega arith, All-map _ _ (λ q lt. omega (arith, lt)) (intents s.tables) h.fresh);
          stored =
              (same, All-map _ _ (λ q e. save_keeps n s.snapshots q e) (intents s.tables) h.stored);
        };
        added = as_queued p ∷ [];
        grown = refl;
        turns = enqueues (as_queued p) (view s.tables) next rests;
      }

  pub insert_publication-Advances :
      (now : ℕ) (id key_hash request_hash actor : String) (n : Snapshot)
      → Advances s (insert_publication now id key_hash request_hash actor n s).1
  unfolding insert_publication
  insert_publication-Advances now id key_hash request_hash actor n =
      elim (Bool-cases (is_same_content n (save_snapshot n s.snapshots))) [
        | inr other ↦ rw other unchanged
        | inl same ↦ elim (Bool-cases (is_duplicate id key_hash s.tables)) [
          | inl taken ↦ rw (same, taken) unchanged
          | inr free ↦ rw (same, free) (inserted now id key_hash request_hash actor n same free)
        ]
      ]
