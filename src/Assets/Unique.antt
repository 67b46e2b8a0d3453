-- ===== src/Assets/Unique.antt =====
-- identifier_slug.go: what `uniqueIdentifier` answers.
use agent_enterprise_protoco.Common.{
  ℕ, zero, suc, ◌+◌, String, ◌≡◌, sym, ap, ◌∙◌, ◌⊎◌, inl, inr, Bool, true, false, Option, none,
  some, if◌then◌else◌, Bool-cases, ◌==◌, nat_eq, string_eq,
}
use agent_enterprise_protoco.Common.Results.{Result, ok, ◌>>=◌, >>=-eq-ok}
use agent_enterprise_protoco.Common.Text.{append}
use agent_enterprise_protoco.Common.Decimal.{format_int}
use agent_enterprise_protoco.Assets.Slug.{try_suffixes, or_random, unique_identifier}

module _ {E : Type 0} (exists : String → Result E Bool) where
  abbrev pub candidate : String → ℕ → String
  candidate base suffix = append base (append "-" (format_int suffix))

  -- The candidates with a number of suffixes from one on are all in use.
  abbrev pub AllTaken : (rounds suffix : ℕ) → String → Type 0
  AllTaken zero suffix base = Unit
  AllTaken (suc rounds) suffix base =
      (exists (candidate base suffix) ≡ ok true) × AllTaken rounds (suffix + 1) base

  -- A free identifier, or a random one where the base and its 98 candidates are in use.
  abbrev pub IsUnique : Result E String → String → String → Type 0
  IsUnique tail base id =
      (exists id ≡ ok false)
      ⊎ ((t : String) × (tail ≡ ok t)
          × (id ≡ append base (append "-" t))
          × (exists base ≡ ok true)
          × AllTaken 98 2 base)

  suffixes-ok :
      (rounds suffix : ℕ) (base : String) (found : Option String)
      → try_suffixes exists rounds suffix base ≡ ok found
      → ((id : String) × (found ≡ some id) × (exists id ≡ ok false))
        ⊎ ((found ≡ none) × AllTaken rounds suffix base)
  unfolding try_suffixes
  suffixes-ok zero suffix base found h =
      let h' : Path (Result E (Option String)) (ok none) (ok found) = h in
      let none_found : none ≡ found = cc in inr (sym none_found, tt)
  suffixes-ok (suc rounds) suffix base found h =
      let (taken, e, rest) = >>=-eq-ok (exists (candidate base suffix)) _ h in
      elim (Bool-cases taken) [
        | inl hit ↦ elim (suffixes-ok rounds (suffix + 1) base found (rw hit at rest)) [
          | inl free ↦ inl free
          | inr (none_found, all_taken) ↦ inr (none_found, (e ∙ ap ok hit, all_taken))
        ]
        | inr miss ↦
            let rest' : Path (Result E (Option String)) (ok (some (candidate base suffix)))
                (ok found) =
              rw miss at rest in
            let it : some (candidate base suffix) ≡ found = cc in
            inl (candidate base suffix, sym it, e ∙ ap ok miss)
      ]

  chosen-IsUnique :
      (tail : Result E String) (base id : String) (found : Option String)
      → exists base ≡ ok true
      → try_suffixes exists 98 2 base ≡ ok found
      → or_random exists tail base found ≡ ok id
      → IsUnique tail base id
  unfolding or_random
  chosen-IsUnique tail base id none in_use h k =
      let (t, random, made) = >>=-eq-ok tail _ k in
      let made' : Path (Result E String) (ok (append base (append "-" t))) (ok id) = made in
      let it : append base (append "-" t) ≡ id = cc in
      elim (suffixes-ok 98 2 base none h) [
        | inl (_, some_found, _) ↦ cc
        | inr (_, all_taken) ↦ inr (t, random, sym it, in_use, all_taken)
      ]
  chosen-IsUnique tail base id (some free_id) in_use h k =
      let k' : Path (Result E String) (ok free_id) (ok id) = k in
      let it : free_id ≡ id = cc in
      elim (suffixes-ok 98 2 base (some free_id) h) [
        | inl (found_id, same, free) ↦
            let same' : Path (Option String) (some free_id) (some found_id) = same in
            let found_is : free_id ≡ found_id = cc in inl (ap exists (sym it ∙ found_is) ∙ free)
        | inr (none_found, _) ↦ cc
      ]

  abbrev pub base_of : String → String → String
  base_of slug fallback_kind = if slug == "" then fallback_kind else slug

  -- An identifier that is generated is free when it is looked up, or it is the base with a random
  -- tail, and then the base and all of its candidates with the suffixes 2 to 99 are in use.
  pub unique_identifier-IsUnique :
      (tail : Result E String) (slug fallback_kind id : String)
      → unique_identifier exists tail slug fallback_kind ≡ ok id
      → IsUnique tail (base_of slug fallback_kind) id
  unfolding unique_identifier
  unique_identifier-IsUnique tail slug fallback_kind id h =
      let base = base_of slug fallback_kind in
      let (taken, e, rest) = >>=-eq-ok (exists base) _ h in
      elim (Bool-cases taken) [
        | inr miss ↦
            let rest' : Path (Result E String) (ok base) (ok id) = rw miss at rest in
            let it : base ≡ id = cc in inl (ap exists (sym it) ∙ e ∙ ap ok miss)
        | inl hit ↦
            let rest' : (try_suffixes exists 98 2 base >>= or_random exists tail base) ≡ ok id =
              rw hit at rest in
            let (found, searched, made) = >>=-eq-ok (try_suffixes exists 98 2 base) _ rest' in
            chosen-IsUnique tail base id found (e ∙ ap ok hit) searched made
      ]
