-- ===== src/Common/Sorting.antt =====
-- Sorting by a strict order, and dropping repeated values: what `sort.Slice` and the `seen` loops do.
use mathlib.Core.Path.{◌≡◌, refl}
use mathlib.Core.Bool.{Bool, ◌&&◌, ◌||◌, not}
use mathlib.Core.List.{List, [], ◌∷◌}
use native.Mathlib.Omega.{arith}
use agent_enterprise_protoco.Common.Tests.{if◌then◌else◌}
use agent_enterprise_protoco.Common.Equality.{Eq, ◌==◌, contains}

module _ {ℓ} {A : Type ℓ} where
  unfoldable pub insert_by : (A → A → Bool) → A → List A → List A
  insert_by lt a [] = a ∷ []
  insert_by lt a (x ∷ xs) = let rest = insert_by lt a xs in if lt x a then x ∷ rest else a ∷ x ∷ xs

  unfoldable pub sort_by : (A → A → Bool) → List A → List A
  unfolding insert_by
  sort_by lt [] = []
  sort_by lt (x ∷ xs) = insert_by lt x (sort_by lt xs)

module _ {ℓ} {A : Type ℓ} ⦃e : Eq A⦄ where
  -- The values that `skip` lets through, each at its first place, less those seen before.
  unfoldable pub unique_from : (A → Bool) → List A → List A → List A
  unique_from skip seen [] = []
  unique_from skip seen (v ∷ values) =
      let dropped = unique_from skip seen values in
      let kept = v ∷ unique_from skip (v ∷ seen) values in
      if skip v || contains seen v then dropped else kept

  contains-insert_by :
      (lt : A → A → Bool) (a : A) (xs : List A) (b : A)
      → contains (insert_by lt a xs) b ≡ (a == b || contains xs b)
  unfolding contains insert_by
  contains-insert_by lt a [] b = refl
  contains-insert_by lt a (x ∷ xs) b = ground (arith, contains-insert_by lt a xs b)

  pub contains-sort_by :
      (lt : A → A → Bool) (xs : List A) (b : A) → contains (sort_by lt xs) b ≡ contains xs b
  unfolding contains sort_by
  contains-sort_by lt [] b = refl
  contains-sort_by lt (x ∷ xs) b =
      ground (arith, contains-insert_by lt x (sort_by lt xs) b, contains-sort_by lt xs b)

  pub contains-unique_from :
      (skip : A → Bool) (seen xs : List A) (b : A)
      → contains (unique_from skip seen xs) b
        ≡ (not (skip b) && not (contains seen b) && contains xs b)
  unfolding contains unique_from
  contains-unique_from skip seen [] b = ground arith
  contains-unique_from skip seen (v ∷ xs) b = ground (
    arith,
    e.beq_iff v b,
    contains-unique_from skip seen xs b,
    contains-unique_from skip (v ∷ seen) xs b,
  )
