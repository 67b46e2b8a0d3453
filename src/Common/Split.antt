-- ===== src/Common/Split.antt =====
-- A text that is joined by a separator can be taken apart in one way only.
use Prim.Native.Char.{Char, code}
use Prim.Native.String.{String}
use mathlib.Core.Path.{◌≡◌, refl, sym, ap, ◌∙◌}
use mathlib.Core.Logic.{◌≢◌}
use text.Mathlib.TextLemmas.{nil-append, cons-append, head-eq_of_cons-eq, tail-eq_of_cons-eq}
use agent_enterprise_protoco.Common.Text.{append}

module _ (sep : Char) where
  -- No character of the text is the separator.
  abbrev pub NoChar : String → Type 0
  NoChar String.[] = Unit
  NoChar (String.◌∷◌ c s) = (code c ≢ code sep) × NoChar s

  starts_with_sep :
      (c : Char) (s x y : String)
      → code c ≢ code sep
      → append "" (String.◌∷◌ sep x) ≡ append (String.◌∷◌ c s) y
      → ⊥
  starts_with_sep c s x y ne e = ne (
      sym (
        ap code (head-eq_of_cons-eq (sym (nil-append (String.◌∷◌ sep x)) ∙ e ∙ cons-append c s y))))

  pub split_unique :
      (a b x y : String)
      → NoChar a
      → NoChar b
      → append a (String.◌∷◌ sep x) ≡ append b (String.◌∷◌ sep y)
      → (a ≡ b) × (x ≡ y)
  split_unique String.[] String.[] x y h k e = (
    refl,
    tail-eq_of_cons-eq (sym (nil-append (String.◌∷◌ sep x)) ∙ e ∙ nil-append (String.◌∷◌ sep y)),
  )
  split_unique String.[] (String.◌∷◌ d t) x y h k e = absurd (starts_with_sep d t x _ k.0 e)
  split_unique (String.◌∷◌ c s) String.[] x y h k e = absurd (starts_with_sep c s y _ h.0 (sym e))
  split_unique (String.◌∷◌ c s) (String.◌∷◌ d t) x y h k e =
      let e' = sym (cons-append c s _) ∙ e ∙ cons-append d t _ in
      let (same, rest) = split_unique s t x y h.1 k.1 (tail-eq_of_cons-eq e') in
      let head = head-eq_of_cons-eq e' in (cc, rest)
