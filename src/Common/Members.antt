-- ===== src/Common/Members.antt =====
-- Membership with the position kept, and its link to Boolean searches.
use mathlib.Core.Path.{subst, ◌≡◌, refl, sym, ap, ◌∙◌}
use mathlib.Core.Logic.{◌⊎◌, inl, inr}
use mathlib.Core.Bool.{Bool, true}
use mathlib.Core.List.{List, [], ◌∷◌, ◌++◌, map}
use native.Mathlib.Omega.{arith}
use agent_enterprise_protoco.Common.Tests.{Bool-cases, if◌then◌else◌}
use agent_enterprise_protoco.Common.Lists.{any, filter, All}

abbrev pub In : {R : Type 0} → R → List R → Type 0
In row [] = ⊥
In row (r ∷ rows) = (r ≡ row) ⊎ In row rows

pub any-In :
    {R : Type 0} (test : R → Bool) (rows : List R)
    → any test rows ≡ true
    → (row : R) × In row rows × (test row ≡ true)
any-In test [] h = cc
any-In test (row ∷ rows) h = elim (Bool-cases (test row)) [
  | inl hit ↦ (row, inl refl, hit)
  | inr missed ↦ let (found, i, e) = any-In test rows (ground arith) in (found, inr i, e)
]

pub In-any :
    {R : Type 0} (test : R → Bool) (row : R) (rows : List R)
    → In row rows
    → test row ≡ true
    → any test rows ≡ true
In-any test row [] i h = absurd i
In-any test row (r ∷ rows) (inl same) h = let hit : test r ≡ true = ap test same ∙ h in ground arith
In-any test row (r ∷ rows) (inr i) h = ground (arith, In-any test row rows i h)

-- A row that a filter keeps was there and passes.
pub In-filter :
    {R : Type 0} (test : R → Bool) (row : R) (rows : List R)
    → In row (filter test rows)
    → In row rows × (test row ≡ true)
In-filter test row [] i = absurd i
In-filter test row (r ∷ rows) i = elim (Bool-cases (test r)) [
  | inl hit ↦ by_head (In-filter test row rows) hit (rw hit at i)
  | inr missed ↦
      let (j, e) = In-filter test row rows (rw missed at i) in (inr j, e)
]
  where
    by_head :
        (In row (filter test rows) → In row rows × (test row ≡ true))
        → test r ≡ true
        → In row (r ∷ filter test rows)
        → In row (r ∷ rows) × (test row ≡ true)
    by_head rest hit (inl same) = (inl same, ap test (sym same) ∙ hit)
    by_head rest hit (inr j) = let (k, e) = rest j in (inr k, e)

-- And a row that was there and passes is kept.
pub filter-In :
    {R : Type 0} (test : R → Bool) (row : R) (rows : List R)
    → In row rows
    → test row ≡ true
    → In row (filter test rows)
filter-In test row [] i h = absurd i
filter-In test row (r ∷ rows) (inl same) h =
    let hit : test r ≡ true = ap test same ∙ h in rw hit (inl same)
filter-In test row (r ∷ rows) (inr i) h = elim (Bool-cases (test r)) [
  | inl hit ↦ rw hit (inr (filter-In test row rows i h))
  | inr missed ↦ rw missed (filter-In test row rows i h)
]

pub In-append :
    {R : Type 0} (row : R) (xs ys : List R) → In row (xs ++ ys) → In row xs ⊎ In row ys
In-append row [] ys i = inr i
In-append row (x ∷ xs) ys (inl same) = inl (inl same)
In-append row (x ∷ xs) ys (inr i) = elim (In-append row xs ys i) [
  | inl j ↦ inl (inr j)
  | inr j ↦ inr j
]

-- What a mapped list holds is the image of a row.
pub In-map :
    {R S : Type 0} (f : R → S) (row : S) (rows : List R)
    → In row (map f rows)
    → (r : R) × In r rows × (f r ≡ row)
In-map f row [] i = absurd i
In-map f row (r ∷ rows) (inl same) = (r, inl refl, same)
In-map f row (r ∷ rows) (inr i) = let (q, j, e) = In-map f row rows i in (q, inr j, e)

pub All-In :
    {R : Type 0} (P : R → Type 0) (row : R) (rows : List R) → In row rows → All P rows → P row
All-In P row [] i h = absurd i
All-In P row (r ∷ rows) (inl same) (p, h) = subst P same p
All-In P row (r ∷ rows) (inr i) (p, h) = All-In P row rows i h
