-- ===== src/Policy/Examples.antt =====
-- Tests of the limits, and instances of their properties with an encoding that escapes dots.
use agent_enterprise_protoco.Common.{
  String, ◌≡◌, refl, sym, ap, ◌∙◌, true, false, none, some, List, [], ◌∷◌, arith, if◌then◌else◌,
  ◌==◌, Bool-cases, inl, inr, ℕ, nat_eq, string_eq, contains,
}
use agent_enterprise_protoco.Common.Results.{ok}
use Prim.Native.Char.{Char, code}
use text.Mathlib.TextEquality.{Char-path}
use text.Mathlib.TextLemmas.{nil≢cons, head-eq_of_cons-eq, tail-eq_of_cons-eq}
use agent_enterprise_protoco.Common.Int.{pos, negsuc}
use agent_enterprise_protoco.Common.Maps.{lookup, insert}
use agent_enterprise_protoco.Common.Text.{trim_space}
use agent_enterprise_protoco.Policy.Limits.{
  Configuration, valid_id, is_bad_reference, valid_scope, valid, value_or_empty, model_part, key,
  subject_header, header, add, add_all, collect_headers, headers,
}
use agent_enterprise_protoco.Policy.Keys.{IsEncoding, NoDot, subject_header_inj, team-NoDot}
use agent_enterprise_protoco.Policy.Presence.{applies, headers_fit, lookup-header-headers}

-- "a" is written "aa", and "." is written "ab".
escape : String → String
escape String.[] = String.[]
escape (String.◌∷◌ c s) =
    let rest = escape s in
    if code c == b'.'
    then String.◌∷◌ "a" (String.◌∷◌ "b" rest)
    else if code c == b'a'
    then String.◌∷◌ "a" (String.◌∷◌ "a" rest)
    else String.◌∷◌ c rest

escape-NoDot : (s : String) → NoDot (escape s)
unfolding escape
escape-NoDot String.[] = tt
escape-NoDot (String.◌∷◌ c s) = ground (arith, escape-NoDot s)

empty_escaped : escape "" ≡ ""
unfolding escape
empty_escaped = refl

-- How the escaped text begins and goes on.
first_of_escaped : Char → Char
first_of_escaped c = if code c == b'.' then "a" else if code c == b'a' then "a" else c

rest_of_escaped : Char → String → String
rest_of_escaped c s =
    if code c == b'.'
    then String.◌∷◌ "b" (escape s)
    else if code c == b'a'
    then String.◌∷◌ "a" (escape s)
    else escape s

escape-cons :
    (c : Char) (s : String)
    → escape (String.◌∷◌ c s) ≡ String.◌∷◌ (first_of_escaped c) (rest_of_escaped c s)
unfolding escape first_of_escaped rest_of_escaped
escape-cons c s = ground arith

code-first :
    (c : Char)
    → code (first_of_escaped c)
      ≡ (if code c == b'.' then b'a' else if code c == b'a' then b'a' else code c)
unfolding first_of_escaped
code-first c = elim (Bool-cases (code c == b'.')) [
  | inl p ↦ rw p
  | inr p ↦ elim (Bool-cases (code c == b'a')) [ inl q ↦ rw (p, q) | inr q ↦ rw (p, q) ]
]

a_ne_b : ◌≡◌ {A = Char} "a" "b" → ⊥
a_ne_b e = let n : ◌≡◌ {A = ℕ} 97 98 = ap code e in omega arith

same_escape :
    (c d : Char) (s t : String)
    → first_of_escaped c ≡ first_of_escaped d
    → rest_of_escaped c s ≡ rest_of_escaped d t
    → (c ≡ d) × (escape s ≡ escape t)
unfolding rest_of_escaped
same_escape c d s t p q = ground (
  arith,
  Char-path c d,
  ap code p,
  code-first c,
  code-first d,
  a_ne_b,
  λ (e : ◌≡◌ {A = Char} "b" "a"). a_ne_b (sym e),
)

escape_inj : (s t : String) → escape s ≡ escape t → s ≡ t
escape_inj String.[] String.[] e = refl
escape_inj String.[] (String.◌∷◌ d t) e =
    absurd (nil≢cons (sym empty_escaped ∙ e ∙ escape-cons d t))
escape_inj (String.◌∷◌ c s) String.[] e =
    absurd (nil≢cons (sym empty_escaped ∙ sym e ∙ escape-cons c s))
escape_inj (String.◌∷◌ c s) (String.◌∷◌ d t) e =
    let e' = sym (escape-cons c s) ∙ e ∙ escape-cons d t in
    let (p, q) = same_escape c d s t (head-eq_of_cons-eq e') (tail-eq_of_cons-eq e') in
    let r = escape_inj s t q in cc

escape-IsEncoding : IsEncoding escape
escape-IsEncoding = record { encode_inj = escape_inj; encode-NoDot = escape-NoDot }

abbrev plain : String → String
plain s = s

abbrev team_limit : Configuration
team_limit = record {
  kind = "requests";
  scope_type = "team";
  scope_id = some "sales";
  model_id = some "gpt";
  maximum = pos 10;
  interval = "minute";
  enabled = true;
  expected_version = pos 0;
}

run : Unit {0}
unfolding valid valid_scope valid_id is_bad_reference trim_space value_or_empty model_part key
    subject_header header add add_all collect_headers headers escape lookup insert contains applies
run = tt

team_limit-valid : valid team_limit ≡ true
unfolding run
team_limit-valid = refl

validity :
    (valid (record team_limit { maximum = negsuc 0 }) ≡ false)
    × (valid (record team_limit { scope_type = "global" }) ≡ false)
    × (valid (record team_limit { scope_type = "model" }) ≡ false)
    × (valid (record team_limit { scope_id = some " " }) ≡ false)
    × (valid_id "a.b-C_9" ≡ true)
    × (valid_id "-a" ≡ false)
unfolding run
validity = (refl, refl, refl, refl, refl, refl)

abbrev carried : List (String × String)
carried = collect_headers escape plain "gpt" "ann" ("sales" ∷ []) ("lead" ∷ [])

carried-headers : headers escape plain "gpt" "ann" ("sales" ∷ []) ("lead" ∷ []) ≡ ok carried
unfolding run
carried-headers = refl

lookup-header-headers_example :
    lookup (header escape plain team_limit) carried
    ≡ (if applies team_limit "gpt" "ann" ("sales" ∷ []) ("lead" ∷ []) then some "1" else none)
lookup-header-headers_example =
    lookup-header-headers escape plain escape-IsEncoding (λ s t e. e) team_limit "gpt" "ann"
      ("sales" ∷ []) ("lead" ∷ []) carried team_limit-valid carried-headers

applies_tests :
    (applies team_limit "gpt" "ann" ("sales" ∷ []) [] ≡ true)
    × (applies team_limit "other" "ann" ("sales" ∷ []) [] ≡ false)
    × (applies team_limit "gpt" "sales" [] ("sales" ∷ []) ≡ false)
unfolding run
applies_tests = (refl, refl, refl)

headers_fit_test : headers escape plain "gpt" "ann" ("sales" ∷ []) ("lead" ∷ []) ≡ ok carried
headers_fit_test = headers_fit escape plain "gpt" "ann" ("sales" ∷ []) ("lead" ∷ []) (omega arith)

subject_header_inj_test :
    (◌≡◌ {A = String} "team" "team")
    × (◌≡◌ {A = String} "sales" "sales")
    × (◌≡◌ {A = String} "gpt" "gpt")
subject_header_inj_test =
    subject_header_inj escape plain escape-IsEncoding "team" "sales" "gpt" "team" "sales" "gpt"
      (λ s t e. e) team-NoDot team-NoDot refl
