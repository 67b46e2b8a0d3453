-- ===== src/Assets/Legal.antt =====
-- What identifier_slug.go generates: a slug is a legal model identifier of the gateway, and a unique
-- identifier is free or ends in a random tail.
use agent_enterprise_protoco.Common.{
  ℕ, zero, suc, ◌+◌, ◌≤◌, String, ◌≡◌, refl, ◌⊎◌, inl, inr, Bool, true, false, ◌||◌, arith, ltb,
  Bool-cases, nat_eq, string_eq,
}
use Prim.Native.Char.{Char, code}
use Prim.Native.String
use agent_enterprise_protoco.Access.Snapshot.{is_model_character, all_model_characters, is_model_id}
use agent_enterprise_protoco.Assets.Slug.{
  is_kept, write_slug, is_dash, trim_left_dashes, cons_dashed, trim_right_dashes, trim_dashes,
  first_bytes, slug_for,
}

write_slug-legal :
    (previous_dash : Bool) (s : String) → all_model_characters (write_slug previous_dash s) ≡ true
unfolding write_slug all_model_characters is_model_character is_kept
write_slug-legal b String.[] = refl
write_slug-legal b (String.◌∷◌ c s) = elim (Bool-cases (is_kept (code c))) [
  | inl kept ↦ rw kept (ground (arith, write_slug-legal false s, kept))
  | inr other ↦ elim (Bool-cases b) [
    | inl e ↦ rw (other, e) (write_slug-legal true s)
    | inr e ↦ rw (other, e) (write_slug-legal true s)
  ]
]

legal_parts :
    (c : Char) (s : String)
    → all_model_characters (String.◌∷◌ c s) ≡ true
    → ((is_kept (code c) || is_dash c) ≡ true) × (all_model_characters s ≡ true)
unfolding all_model_characters is_model_character is_kept is_dash
legal_parts c s h = (ground arith, ground arith)

legal_cons :
    (c : Char) (s : String)
    → (is_kept (code c) || is_dash c) ≡ true
    → all_model_characters s ≡ true
    → all_model_characters (String.◌∷◌ c s) ≡ true
unfolding all_model_characters is_model_character is_kept is_dash
legal_cons c s h k = ground (arith, h, k)

count_cons : (c : Char) (s : String) → String.count (String.◌∷◌ c s) ≡ suc (String.count s)
count_cons c s = String.count.cons c s

-- Trimming keeps the alphabet and does not add characters.
trim_left_legal :
    (s : String)
    → all_model_characters s ≡ true
    → (all_model_characters (trim_left_dashes s) ≡ true)
      × (String.count (trim_left_dashes s) ≤ String.count s)
unfolding trim_left_dashes
trim_left_legal String.[] h = (h, omega arith)
trim_left_legal (String.◌∷◌ c s) h =
    let (_, rest) = legal_parts c s h in
    let (legal, shorter) = trim_left_legal s rest in
    elim (Bool-cases (is_dash c)) [
      | inl dashed ↦ rw dashed (legal, omega (arith, shorter, count_cons c s))
      | inr other ↦ rw other (h, omega arith)
    ]

cons_dashed_legal :
    (c : Char) (s : String)
    → (is_kept (code c) || is_dash c) ≡ true
    → all_model_characters s ≡ true
    → (all_model_characters (cons_dashed c s) ≡ true)
      × (String.count (cons_dashed c s) ≤ String.count s + 1)
unfolding cons_dashed
cons_dashed_legal c String.[] h k = elim (Bool-cases (is_dash c)) [
  | inl dashed ↦ rw dashed (k, omega arith)
  | inr other ↦
      (let one : String.count (String.◌∷◌ c "") ≤ String.count "" + 1 =
          omega (arith, count_cons c "") in
        rw other (legal_cons c "" h k, one))
]
cons_dashed_legal c (String.◌∷◌ d t) h k =
    (legal_cons c (String.◌∷◌ d t) h k, omega (arith, count_cons c (String.◌∷◌ d t)))

trim_right_legal :
    (s : String)
    → all_model_characters s ≡ true
    → (all_model_characters (trim_right_dashes s) ≡ true)
      × (String.count (trim_right_dashes s) ≤ String.count s)
unfolding trim_right_dashes
trim_right_legal String.[] h = (h, omega arith)
trim_right_legal (String.◌∷◌ c s) h =
    let (first, rest) = legal_parts c s h in
    let (legal, shorter) = trim_right_legal s rest in
    let (legal', longer) = cons_dashed_legal c (trim_right_dashes s) first legal in
    (legal', omega (arith, shorter, longer, count_cons c s))

trim_legal :
    (s : String)
    → all_model_characters s ≡ true
    → (all_model_characters (trim_dashes s) ≡ true)
      × (String.count (trim_dashes s) ≤ String.count s)
unfolding trim_dashes
trim_legal s h =
    let (legal, shorter) = trim_left_legal s h in
    let (legal', shorter') = trim_right_legal (trim_left_dashes s) legal in
    (legal', omega (arith, shorter, shorter'))

first_legal :
    (n : ℕ) (s : String)
    → all_model_characters s ≡ true
    → (all_model_characters (first_bytes n s) ≡ true) × (String.count (first_bytes n s) ≤ n)
unfolding first_bytes
first_legal zero s h = (unfold all_model_characters in refl, omega arith)
first_legal (suc n) String.[] h = (h, omega arith)
first_legal (suc n) (String.◌∷◌ c s) h =
    let (first, rest) = legal_parts c s h in
    let (legal, short) = first_legal n s rest in
    (
      legal_cons c (first_bytes n s) first legal,
      omega (arith, short, count_cons c (first_bytes n s)),
    )

-- Nothing, or a text that begins with a kept character.
StartsKept : String → Type 0
StartsKept String.[] = Unit
StartsKept (String.◌∷◌ c s) = is_dash c ≡ false

trim_left-StartsKept : (s : String) → StartsKept (trim_left_dashes s)
unfolding trim_left_dashes StartsKept
trim_left-StartsKept String.[] = tt
trim_left-StartsKept (String.◌∷◌ c s) = elim (Bool-cases (is_dash c)) [
  | inl dashed ↦ rw dashed (trim_left-StartsKept s)
  | inr other ↦ rw other other
]

trim_right-StartsKept : (s : String) → StartsKept s → StartsKept (trim_right_dashes s)
unfolding trim_right_dashes StartsKept cons_dashed
trim_right-StartsKept String.[] h = tt
trim_right-StartsKept (String.◌∷◌ c s) h = by_rest (trim_right_dashes s)
  where
    by_rest : (t : String) → StartsKept (cons_dashed c t)
    by_rest String.[] = rw h h
    by_rest (String.◌∷◌ d t) = h

trim-StartsKept : (s : String) → StartsKept (trim_dashes s)
unfolding trim_dashes
trim-StartsKept s = trim_right-StartsKept (trim_left_dashes s) (trim_left-StartsKept s)

model_id :
    (s : String)
    → all_model_characters s ≡ true
    → String.count s ≤ 40
    → StartsKept s
    → (s ≡ "") ⊎ (is_model_id s ≡ true)
unfolding is_model_id StartsKept is_model_character all_model_characters is_dash
model_id String.[] h short starts = inl refl
model_id (String.◌∷◌ c s) h short starts = inr (ground (arith, h, short, starts, count_cons c s))

-- A slug is empty, or a model identifier as the gateway and its operator want them: a letter or a
-- digit, with at most 39 letters, digits and dashes behind it; for every name, and whatever
-- `strings.ToLower` does.
pub slug_for-legal :
    (lower : String → String) (name : String)
    → (slug_for lower name ≡ "") ⊎ (is_model_id (slug_for lower name) ≡ true)
unfolding slug_for
slug_for-legal lower name =
    let slug = trim_dashes (write_slug true (lower name)) in
    let (legal, _) =
      trim_legal (write_slug true (lower name)) (write_slug-legal true (lower name)) in
    let starts = trim-StartsKept (write_slug true (lower name)) in
    elim (Bool-cases (ltb 40 (String.count slug))) [
      | inr short ↦ rw short (model_id slug legal (ground (arith, short)) starts)
      | inl long ↦
          let (cut, within) = first_legal 40 slug legal in
          let (legal', shorter) = trim_legal (first_bytes 40 slug) cut in
          rw long (
            model_id (trim_dashes (first_bytes 40 slug)) legal' (omega (arith, within, shorter))
              (trim-StartsKept (first_bytes 40 slug)))
    ]
