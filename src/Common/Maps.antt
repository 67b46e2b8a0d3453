-- ===== src/Common/Maps.antt =====
-- Go's maps as association lists with each key once, in the order of insertion.
use mathlib.Core.Path.{◌≡◌, refl, subst}
use mathlib.Core.Logic.{inl, inr}
use mathlib.Core.Bool.{Bool}
use mathlib.Core.Option.{Option, none, some}
use mathlib.Core.List.{List, [], ◌∷◌}
use Prim.Native.Nat.{◌+◌, ◌≤◌}
use native.Mathlib.Omega.{arith}
use agent_enterprise_protoco.Common.Tests.{if◌then◌else◌, Bool-cases}
use agent_enterprise_protoco.Common.Lists.{length, All}
use agent_enterprise_protoco.Common.Equality.{Eq, ◌==◌}

module _ {ℓ} {K V : Type ℓ} ⦃e : Eq K⦄ where
  unfoldable pub lookup : K → List (K × V) → Option V
  lookup k [] = none
  lookup k ((j, v) ∷ m) = let rest = lookup k m in if j == k then some v else rest

  unfoldable pub insert : K → V → List (K × V) → List (K × V)
  insert k v [] = (k, v) ∷ []
  insert k v ((j, w) ∷ m) = let rest = insert k v m in if j == k then (k, v) ∷ m else (j, w) ∷ rest

  unfoldable pub delete : K → List (K × V) → List (K × V)
  delete k [] = []
  delete k ((j, w) ∷ m) = let rest = delete k m in if j == k then rest else (j, w) ∷ rest

  -- The entries whose key passes the test.
  unfoldable pub keep : (K → Bool) → List (K × V) → List (K × V)
  keep p [] = []
  keep p ((j, w) ∷ m) = let rest = keep p m in if p j then (j, w) ∷ rest else rest

  pub lookup-insert :
      (key name : K) (value : V) (entries : List (K × V))
      → lookup name (insert key value entries)
        ≡ (if key == name then some value else lookup name entries)
  unfolding insert lookup
  lookup-insert key name value [] = refl
  lookup-insert key name value ((i, w) ∷ entries) = ground (
    arith,
    lookup-insert key name value entries,
    e.beq_iff i name,
    e.beq_iff i key,
    e.beq_iff key name,
  )

  pub lookup-delete :
      (k j : K) (m : List (K × V)) → lookup j (delete k m) ≡ (if k == j then none else lookup j m)
  unfolding lookup delete
  lookup-delete k j [] = ground arith
  lookup-delete k j ((i, w) ∷ m) =
      ground (arith, e.beq_iff k j, e.beq_iff i k, e.beq_iff i j, lookup-delete k j m)

  pub lookup-keep :
      (p : K → Bool) (j : K) (m : List (K × V))
      → lookup j (keep p m) ≡ (if p j then lookup j m else none)
  unfolding lookup keep
  lookup-keep p j [] = ground arith
  lookup-keep p j ((i, w) ∷ m) = ground (arith, e.beq_iff i j, lookup-keep p j m)

  pub length-insert : (k : K) (v : V) (m : List (K × V)) → length (insert k v m) ≤ length m + 1
  unfolding insert
  length-insert k v [] = omega arith
  length-insert k v ((j, w) ∷ m) = ground (arith, length-insert k v m)

module _ {ℓ} {K V : Type ℓ} ⦃e : Eq K⦄ (P : K × V → Type 0) where
  -- What holds of every entry holds of the one found.
  pub All-lookup : (k : K) (v : V) (m : List (K × V)) → All P m → lookup k m ≡ some v → P (k, v)
  unfolding lookup
  All-lookup k v [] h q = cc
  All-lookup k v ((j, w) ∷ m) (p, h) q = elim (Bool-cases (j == k)) [
    | inl same ↦
        let found : some w ≡ some v = rw same at q in
        let value : w ≡ v = cc in
        subst (λ (x : V). P (k, x)) value (subst (λ (x : K). P (x, w)) ((e.beq_iff j k).0 same) p)
    | inr other ↦ All-lookup k v m h (rw other at q)
  ]

  pub All-insert : (k : K) (v : V) (m : List (K × V)) → All P m → P (k, v) → All P (insert k v m)
  unfolding insert
  All-insert k v [] h p = (p, tt)
  All-insert k v ((j, w) ∷ m) (q, h) p = elim (Bool-cases (j == k)) [
    | inl same ↦ rw same (p, h)
    | inr other ↦ rw other (q, All-insert k v m h p)
  ]
