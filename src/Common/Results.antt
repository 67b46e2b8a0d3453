-- ===== src/Common/Results.antt =====
-- A fallible result, `(value, error)` in the source, with `do` blocks.
use mathlib.Core.Path.{◌≡◌, refl}
use mathlib.Core.Logic.{◌⊎◌, inl, inr}
use mathlib.Core.Bool.{Bool, true, false}

pub data Result {ℓ} (E : Type 0) (A : Type ℓ) : Type ℓ where
  ok : A → Result E A
  err : E → Result E A

infixl 5 ◌>>◌ ◌>>=◌
-- What comes after an error is not run.
abbrev pub ◌>>=◌ {ℓ κ} :
    {E : Type 0} {A : Type ℓ} {B : Type κ} → Result E A → (A → Result E B) → Result E B
err reason >>= next = err reason
ok value >>= next = next value

abbrev pub ◌>>◌ {ℓ} : {E : Type 0} {B : Type ℓ} → Result E (Unit {0}) → Result E B → Result E B
err reason >> next = err reason
ok _ >> next = next

-- `if test { return err }`.
abbrev pub refuse_if : {E : Type 0} → Bool → E → Result E (Unit {0})
refuse_if true e = err e
refuse_if false e = ok tt

-- A chain that succeeds has succeeded at its first step.
pub >>=-eq-ok {ℓ κ} :
    {E : Type 0} {A : Type ℓ} {B : Type κ} {end : B} (first : Result E A) (next : A → Result E B)
    → (first >>= next) ≡ ok end
    → (value : A) × (first ≡ ok value) × (next value ≡ ok end)
>>=-eq-ok (err reason) next h = cc
>>=-eq-ok (ok value) next h = (value, refl, h)

-- Past a guard: its test failed, and the rest succeeded.
pub refuse_if-ok {ℓ} :
    {E : Type 0} {A : Type ℓ} (b : Bool) (e : E) (k : Result E A) {a : A}
    → (refuse_if b e >> k) ≡ ok a
    → (b ≡ false) × (k ≡ ok a)
refuse_if-ok true e k h = cc
refuse_if-ok false e k h = (refl, h)

-- The same for a step without a value.
pub >>-eq-ok {ℓ} :
    {E : Type 0} {B : Type ℓ} {end : B} (first : Result E (Unit {0})) (next : Result E B)
    → (first >> next) ≡ ok end
    → (first ≡ ok tt) × (next ≡ ok end)
>>-eq-ok (err reason) next h = cc
>>-eq-ok (ok tt) next h = (refl, h)

pub refuse_if-passed :
    {E : Type 0} (test : Bool) (reason : E) → refuse_if test reason ≡ ok tt → test ≡ false
refuse_if-passed true reason h = cc
refuse_if-passed false reason h = refl

pub Result-cases {ℓ} :
    {E : Type 0} {A : Type ℓ} (r : Result E A)
    → ((reason : E) × (r ≡ err reason)) ⊎ ((value : A) × (r ≡ ok value))
Result-cases (err reason) = inl (reason, refl)
Result-cases (ok value) = inr (value, refl)
