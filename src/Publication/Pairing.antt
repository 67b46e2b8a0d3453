-- ===== src/Publication/Pairing.antt =====
-- Rows of the publications beside the rows of the outbox, and what updates of both keep of the
-- pairs: the transactions of data_plane_publications.go and publication_delivery.go write both tables.
use agent_enterprise_protoco.Common.{String, ◌≡◌, refl, ◌≢◌, inl, inr, Bool, true, false, ◌&&◌, List, [], ◌∷◌, arith, eq_iff, Bool-cases, any, All, All-map, ◌==◌, nat_eq, string_eq, All-In}
use agent_enterprise_protoco.Publication.Tables.{Publication, OutboxRow, update, affected}
use agent_enterprise_protoco.Publication.Latest.{affected-In, IsKeyed, changed}

-- The tables have their rows in the same order, and each publication is related to its row.
abbrev pub Paired : (Publication → OutboxRow → Type 0) → List Publication → List OutboxRow → Type 0
Paired R [] [] = Unit
Paired R [] (o ∷ os) = ⊥
Paired R (p ∷ ps) [] = ⊥
Paired R (p ∷ ps) (o ∷ os) = R p o × Paired R ps os

abbrev pub IsSame : Publication → OutboxRow → Type 0
IsSame p o = p.operation_id ≡ o.operation_id

pub Paired-map :
    (R S : Publication → OutboxRow → Type 0)
    → ((p : Publication) (o : OutboxRow) → R p o → S p o)
    → (ps : List Publication) (os : List OutboxRow) → Paired R ps os
    → Paired S ps os
Paired-map R S f [] [] h = tt
Paired-map R S f [] (o ∷ os) h = absurd h
Paired-map R S f (p ∷ ps) [] h = absurd h
Paired-map R S f (p ∷ ps) (o ∷ os) (r, h) = (f p o r, Paired-map R S f ps os h)

pub pair_both :
    (R S : Publication → OutboxRow → Type 0) (ps : List Publication) (os : List OutboxRow)
    → Paired R ps os
    → Paired S ps os
    → Paired (λ p o. R p o × S p o) ps os
pair_both R S [] [] h k = tt
pair_both R S [] (o ∷ os) h k = absurd h
pair_both R S (p ∷ ps) [] h k = absurd h
pair_both R S (p ∷ ps) (o ∷ os) (r, h) (s, k) = ((r, s), pair_both R S ps os h k)

pub pair_rows :
    (R : Publication → OutboxRow → Type 0) (P : OutboxRow → Type 0) (ps : List Publication)
    (os : List OutboxRow)
    → Paired R ps os
    → All P os
    → Paired (λ p o. P o) ps os
pair_rows R P [] [] h k = tt
pair_rows R P [] (o ∷ os) h k = absurd h
pair_rows R P (p ∷ ps) [] h k = absurd h
pair_rows R P (p ∷ ps) (o ∷ os) (r, h) (s, k) = (s, pair_rows R P ps os h k)

pub pair_publications :
    (R : Publication → OutboxRow → Type 0) (P : Publication → Type 0)
    → ((p : Publication) (o : OutboxRow) → R p o → P p)
    → (ps : List Publication) (os : List OutboxRow) → Paired R ps os
    → All P ps
pair_publications R P f [] os h = tt
pair_publications R P f (p ∷ ps) [] h = absurd h
pair_publications R P f (p ∷ ps) (o ∷ os) (r, h) = (f p o r, pair_publications R P f ps os h)

-- Both tables updated, each with its own test.
pub Paired-update :
    (R S : Publication → OutboxRow → Type 0) (test : Publication → Bool)
    (change : Publication → Publication) (test' : OutboxRow → Bool)
    (change' : OutboxRow → OutboxRow)
    → ((p : Publication) (o : OutboxRow)
        → R p o
        → S (changed test change p) (changed test' change' o))
    → (ps : List Publication) (os : List OutboxRow) → Paired R ps os
    → Paired S (update test change ps) (update test' change' os)
unfolding update
Paired-update R S test change test' change' f [] [] h = tt
Paired-update R S test change test' change' f [] (o ∷ os) h = absurd h
Paired-update R S test change test' change' f (p ∷ ps) [] h = absurd h
Paired-update R S test change test' change' f (p ∷ ps) (o ∷ os) (r, h) =
    (f p o r, Paired-update R S test change test' change' f ps os h)

-- One of the tables updated.
pub pair_left :
    (R S : Publication → OutboxRow → Type 0) (test : Publication → Bool)
    (change : Publication → Publication)
    → ((p : Publication) (o : OutboxRow) → R p o → S (changed test change p) o)
    → (ps : List Publication) (os : List OutboxRow) → Paired R ps os
    → Paired S (update test change ps) os
unfolding update
pair_left R S test change f [] [] h = tt
pair_left R S test change f [] (o ∷ os) h = absurd h
pair_left R S test change f (p ∷ ps) [] h = absurd h
pair_left R S test change f (p ∷ ps) (o ∷ os) (r, h) =
    (f p o r, pair_left R S test change f ps os h)

pub pair_right :
    (R S : Publication → OutboxRow → Type 0) (test : OutboxRow → Bool)
    (change : OutboxRow → OutboxRow)
    → ((p : Publication) (o : OutboxRow) → R p o → S p (changed test change o))
    → (ps : List Publication) (os : List OutboxRow) → Paired R ps os
    → Paired S ps (update test change os)
unfolding update
pair_right R S test change f [] [] h = tt
pair_right R S test change f [] (o ∷ os) h = absurd h
pair_right R S test change f (p ∷ ps) [] h = absurd h
pair_right R S test change f (p ∷ ps) (o ∷ os) (r, h) =
    (f p o r, pair_right R S test change f ps os h)

none_of :
    (f : Publication → Bool) (o : OutboxRow) (ps : List Publication) (os : List OutboxRow)
    → Paired IsSame ps os
    → All (λ q. (q.operation_id == o.operation_id) ≡ false) os
    → any (λ q. q.operation_id == o.operation_id && f q) ps ≡ false
none_of f o [] [] h k = refl
none_of f o [] (o' ∷ os) h k = absurd h
none_of f o (p ∷ ps) [] h k = absurd h
none_of f o (p ∷ ps) (o' ∷ os) (r, h) (other, k) = ground (arith, none_of f o ps os h k, r, other)

-- Over a keyed outbox, what some publication of a row's operation satisfies is what its own does.
pub Paired-any :
    (f : Publication → Bool) (ps : List Publication) (os : List OutboxRow)
    → Paired IsSame ps os
    → IsKeyed os
    → Paired (λ p o. any (λ q. q.operation_id == o.operation_id && f q) ps ≡ f p) ps os
Paired-any f [] [] h k = tt
Paired-any f [] (o ∷ os) h k = absurd h
Paired-any f (p ∷ ps) [] h k = absurd h
Paired-any f (p ∷ ps) (o ∷ os) (r, h) (others, k) =
    let own = none_of f o ps os h others in
    let own_eq = eq_iff p.operation_id o.operation_id in
    (
      ground (arith, own, r, own_eq),
      Paired-map
          (λ p' o'.
            (any (λ q. q.operation_id == o'.operation_id && f q) ps ≡ f p')
            × ((o'.operation_id == o.operation_id) ≡ false))
          (λ p' o'. any (λ q. q.operation_id == o'.operation_id && f q) (p ∷ ps) ≡ f p')
          (λ p' o' (e, other). ground (
            arith,
            e,
            other,
            r,
            own_eq,
            eq_iff p.operation_id o'.operation_id,
            eq_iff o'.operation_id o.operation_id,
          ))
          ps os (pair_both _ _ ps os (Paired-any f ps os h k) (pair_rows IsSame _ ps os h others)),
    )

-- A test that picks rows of one operation, and picks some, picks all rows of the operation.
pub keyed_test :
    (k : String) (test : OutboxRow → Bool)
    → ((o : OutboxRow) → test o ≡ true → (o.operation_id == k) ≡ true)
    → (os : List OutboxRow) → IsKeyed os
    → affected test os ≢ 0
    → All (λ o. test o ≡ (o.operation_id == k)) os
unfolding affected
keyed_test k test picks [] keyed some_row = tt
keyed_test k test picks (o ∷ os) (others, keyed) some_row = elim (Bool-cases (test o)) [
  | inl hit ↦
      let same = picks o hit in
      (
        ground (arith, hit, same),
        All-map (λ q. (q.operation_id == o.operation_id) ≡ false)
            (λ q. test q ≡ (q.operation_id == k))
            (λ q other. elim (Bool-cases (test q)) [
              | inl hit' ↦ ground (
                arith,
                other,
                same,
                picks q hit',
                eq_iff o.operation_id k,
                eq_iff q.operation_id k,
                eq_iff q.operation_id o.operation_id,
              )
              | inr missed ↦ ground (
                arith,
                other,
                same,
                missed,
                eq_iff o.operation_id k,
                eq_iff q.operation_id k,
                eq_iff q.operation_id o.operation_id,
              )
            ])
            os others,
      )
  | inr missed ↦
      let rest : affected test os ≢ 0 = unfold affected in rw missed at some_row in
      let rest_all = keyed_test k test picks os keyed rest in
      let (row, i, hit) = affected-In test os rest in
      let other = All-In (λ q. (q.operation_id == o.operation_id) ≡ false) row os i others in
      (
        ground (
          arith,
          missed,
          other,
          picks row hit,
          eq_iff row.operation_id k,
          eq_iff o.operation_id k,
          eq_iff row.operation_id o.operation_id,
        ),
        rest_all,
      )
]
