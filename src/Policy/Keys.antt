-- ===== src/Policy/Keys.antt =====
-- No two subjects share a header, as long as the encoding and the digest keep texts apart.
use agent_enterprise_protoco.Common.{
  ℕ, String, ◌≡◌, sym, ap, ◌∙◌, inl, inr, arith, eq_iff, Bool-cases, ◌==◌, nat_eq, string_eq,
}
use Prim.Native.Char.{Char, code}
use text.Mathlib.TextLemmas.{nil-append, cons-append, append_cancel_left, head-eq_of_cons-eq}
use agent_enterprise_protoco.Common.Text.{append}
use agent_enterprise_protoco.Common.Split.{NoChar, split_unique}
use agent_enterprise_protoco.Policy.Limits.{model_part, key, subject_header}

-- No character of the text is a dot.
abbrev pub NoDot : String → Type 0
NoDot = NoChar "."

-- What the keys rely on: `base64.RawURLEncoding` is injective and writes no dot.
pub record IsEncoding (encode : String → String) : Type 0 where
  pub encode_inj : (s t : String) → encode s ≡ encode t → s ≡ t
  pub encode-NoDot : (s : String) → NoDot (encode s)

-- A digest without collisions.
abbrev pub NoCollision : (String → String) → Type 0
NoCollision digest = (s t : String) → digest s ≡ digest t → s ≡ t

abbrev dot_then : String → String
dot_then s = append "." s

abbrev dot : Char
dot = "."

dot_then-cons : (x : String) → dot_then x ≡ String.◌∷◌ dot x
dot_then-cons x = cons-append dot "" x ∙ ap (λ t. String.◌∷◌ dot t) (nil-append x)

-- A text splits at its first dot in one way.
split_dot :
    (a b x y : String)
    → NoDot a
    → NoDot b
    → append a (dot_then x) ≡ append b (dot_then y)
    → (a ≡ b) × (x ≡ y)
split_dot a b x y h k e =
    split_unique dot a b x y h k
      (ap (append a) (sym (dot_then-cons x)) ∙ e ∙ ap (append b) (dot_then-cons y))

all_is_not_named : (x : String) → "all" ≡ append "m." x → ⊥
all_is_not_named x e =
    let first : ◌≡◌ {A = Char} "a" "m" = head-eq_of_cons-eq (e ∙ cons-append "m" "." x) in
    let number : ◌≡◌ {A = ℕ} 97 109 = ap code first in omega arith

module _ (encode digest : String → String) (enc : IsEncoding encode) where
  model_part_inj : (m n : String) → model_part encode m ≡ model_part encode n → m ≡ n
  unfolding model_part
  model_part_inj m n e = elim (Bool-cases (m == "")) [
    | inl p ↦ elim (Bool-cases (n == "")) [
      | inl q ↦ (eq_iff m "").0 p ∙ sym ((eq_iff n "").0 q)
      | inr q ↦ absurd (all_is_not_named (encode n) (rw (p, q) at e))
    ]
    | inr p ↦ elim (Bool-cases (n == "")) [
      | inl q ↦ absurd (all_is_not_named (encode m) (sym (rw (p, q) at e)))
      | inr q ↦ enc.encode_inj m n (append_cancel_left "m." (encode m) (encode n) (rw (p, q) at e))
    ]
  ]

  key_inj :
      (kind id model kind' id' model' : String)
      → NoDot kind
      → NoDot kind'
      → key encode kind id model ≡ key encode kind' id' model'
      → (kind ≡ kind') × (id ≡ id') × (model ≡ model')
  unfolding key
  key_inj kind id model kind' id' model' h h' e =
      let (same_kind, e₁) = split_dot kind kind' _ _ h h' e in
      let (same_id, e₂) =
        split_dot (encode id) (encode id') _ _ (enc.encode-NoDot id) (enc.encode-NoDot id') e₁ in
      (same_kind, enc.encode_inj id id' same_id, model_part_inj model model' e₂)

  -- The counter of a limit is shared by exactly one subject: two headers are equal only if the
  -- kinds, the ids and the models are.
  pub subject_header_inj :
      (kind id model kind' id' model' : String)
      → NoCollision digest
      → NoDot kind
      → NoDot kind'
      → subject_header encode digest kind id model ≡ subject_header encode digest kind' id' model'
      → (kind ≡ kind') × (id ≡ id') × (model ≡ model')
  unfolding subject_header
  subject_header_inj kind id model kind' id' model' nc h h' e =
      key_inj kind id model kind' id' model' h h' (nc _ _ (append_cancel_left "x-aep-limit-" _ _ e))

pub global-NoDot : NoDot "global"
global-NoDot = omega arith

pub user-NoDot : NoDot "user"
user-NoDot = omega arith

pub team-NoDot : NoDot "team"
team-NoDot = omega arith

pub role-NoDot : NoDot "role"
role-NoDot = omega arith
