-- ===== src/Publication/Latest.antt =====
-- What the updates of publication_delivery.go keep of the tables: the newest intent, and keys.
use agent_enterprise_protoco.Common.{◌≤◌, ◌≡◌, refl, ap, ◌∙◌, ◌≢◌, ◌⊎◌, inl, inr, Bool, true, false, Option, none, some, List, [], ◌∷◌, arith, ltb, if◌then◌else◌, Bool-cases, All, All-map, ◌==◌, nat_eq, string_eq, In}
use mathlib.Core.Path.{subst}
use agent_enterprise_protoco.Publication.Tables.{
  Publication, OutboxRow, update, affected, newer, latest,
}

abbrev pub changed : {R : Type 0} → (R → Bool) → (R → R) → R → R
changed test change row = if test row then change row else row

abbrev pub map_option : {A B : Type 0} → (A → B) → Option A → Option B
map_option f none = none
map_option f (some a) = some (f a)

module _ (test : Publication → Bool) (change : Publication → Publication)
    (same : (p : Publication) → (change p).sequence ≡ p.sequence) where
  changed-sequence : (p : Publication) → (changed test change p).sequence ≡ p.sequence
  changed-sequence p = elim (Bool-cases (test p)) [
    | inl hit ↦ rw hit (same p)
    | inr missed ↦ rw missed refl
  ]

  newer-changed :
      (p : Publication) (found : Option Publication)
      → newer (changed test change p) (map_option (changed test change) found)
        ≡ changed test change (newer p found)
  unfolding newer
  newer-changed p none = refl
  newer-changed p (some q) = elim (Bool-cases (ltb p.sequence q.sequence)) [
    | inl older ↦ rw (changed-sequence p, changed-sequence q, older) refl
    | inr younger ↦ rw (changed-sequence p, changed-sequence q, younger) refl
  ]

  -- An update that keeps the sequence numbers keeps the newest intent newest.
  pub latest-update :
      (ps : List Publication)
      → latest (update test change ps) ≡ map_option (changed test change) (latest ps)
  unfolding latest update
  latest-update [] = refl
  latest-update (p ∷ ps) =
      ap some (ap (newer (changed test change p)) (latest-update ps) ∙ newer-changed p (latest ps))

latest-none : (ps : List Publication) (P : Publication → Type 0) → latest ps ≡ none → All P ps
unfolding latest
latest-none [] P h = tt
latest-none (p ∷ ps) P h = cc

newer_above :
    (q r : Publication)
    → (q.sequence ≤ (newer q (some r)).sequence) × (r.sequence ≤ (newer q (some r)).sequence)
unfolding newer
newer_above q r = elim (Bool-cases (ltb q.sequence r.sequence)) [
  | inl older ↦ rw older (ground arith, ground arith)
  | inr younger ↦ rw younger (ground arith, ground arith)
]

pub latest_is_greatest :
    (ps : List Publication) (p : Publication)
    → latest ps ≡ some p
    → All (λ q. q.sequence ≤ p.sequence) ps
unfolding latest newer
latest_is_greatest [] p h = tt
latest_is_greatest (q ∷ ps) p h = by_rest (λ r e. latest_is_greatest ps r e) (latest ps) refl h
  where
    by_rest :
        ((r : Publication) → latest ps ≡ some r → All (λ x. x.sequence ≤ r.sequence) ps)
        → (found : Option Publication) → latest ps ≡ found
        → some (newer q found) ≡ some p
        → All (λ r. r.sequence ≤ p.sequence) (q ∷ ps)
    by_rest below none e k =
        let same : q ≡ p = cc in
        (omega (arith, ap (λ (x : Publication). x.sequence) same), latest-none ps _ e)
    by_rest below (some r) e k =
        let same : newer q (some r) ≡ p = cc in
        let (above_q, above_r) = newer_above q r in
        let reached = ap (λ (x : Publication). x.sequence) same in
        (
          omega (arith, above_q, reached),
          All-map (λ x. x.sequence ≤ r.sequence) (λ x. x.sequence ≤ p.sequence)
              (λ x le. omega (arith, le, above_r, reached)) ps (below r e),
        )

pub affected-In :
    {R : Type 0} (test : R → Bool) (rows : List R)
    → affected test rows ≢ 0
    → (row : R) × In row rows × (test row ≡ true)
unfolding affected
affected-In test [] h = absurd (h refl)
affected-In test (row ∷ rows) h = elim (Bool-cases (test row)) [
  | inl hit ↦ (row, inl refl, hit)
  | inr missed ↦ let (found, i, e) = affected-In test rows (rw missed at h) in (found, inr i, e)
]

pub affected_none :
    {R : Type 0} (test : R → Bool) (rows : List R)
    → All (λ row. test row ≡ false) rows
    → affected test rows ≡ 0
unfolding affected
affected_none test [] h = refl
affected_none test (row ∷ rows) (missed, h) = rw missed (affected_none test rows h)

pub All-update :
    {R : Type 0} (P Q : R → Type 0) (test : R → Bool) (change : R → R)
    → ((row : R) → P row → test row ≡ true → Q (change row))
    → ((row : R) → P row → test row ≡ false → Q row)
    → (rows : List R) → All P rows
    → All Q (update test change rows)
unfolding update
All-update P Q test change hit missed [] h = tt
All-update P Q test change hit missed (row ∷ rows) (p, h) =
    let rest = All-update P Q test change hit missed rows h in
    elim (Bool-cases (test row)) [
      | inl e ↦ rw e (hit row p e, rest)
      | inr e ↦ rw e (missed row p e, rest)
    ]

-- The outbox has its primary key: each operation once.
abbrev pub IsKeyed : List OutboxRow → Type 0
IsKeyed [] = Unit
IsKeyed (o ∷ os) = All (λ q. (q.operation_id == o.operation_id) ≡ false) os × IsKeyed os
