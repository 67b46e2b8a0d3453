-- ===== src/Login/Throttle.antt =====
-- How long auth_security.go keeps a client out.
use agent_enterprise_protoco.Common.{
  ℕ, ◌+◌, ◌-◌, ◌*◌, ◌≤◌, String, ◌≡◌, refl, sym, ap, ◌∙◌, ◌≢◌, inl, inr, false, Option, none, some,
  [], ◌∷◌, arith, eq_iff, ltb, Bool-cases, ◌==◌, nat_eq, string_eq, beq_refl,
}
use agent_enterprise_protoco.Common.Maps.{lookup, insert, delete, lookup-insert, lookup-delete}
use agent_enterprise_protoco.Login.Backoff.{login_backoff_bounded}
use agent_enterprise_protoco.Login.Limits.{
  LoginFingerprint, Limits, LoginRateLimit, Table, larger, remaining, login_throttle_for_key,
  login_throttle, next_count, block, failure_backoff, record_login_limit_failure, delete_old,
  record_login_failure, record_login_success,
}

-- A row that has just been written survives the sweep.
lookup-delete_old :
    (window now : ℕ) (key : String) (table : Table) (row : LoginRateLimit)
    → lookup key table ≡ some row
    → now ≤ row.updated_at
    → lookup key (delete_old window now table) ≡ some row
unfolding lookup delete_old
lookup-delete_old window now key [] row h fresh = cc
lookup-delete_old window now key ((k, r) ∷ table) row h fresh = elim (Bool-cases (k == key)) [
  | inl here ↦
      let h' : Path (Option LoginRateLimit) (some r) (some row) = rw here at h in
      let same : r ≡ row = cc in
      let kept : ltb (r.updated_at + 2 * window) now ≡ false =
        ground (arith, fresh, ap (λ (x : LoginRateLimit). x.updated_at) same) in
      rw (kept, here) h'
  | inr later ↦
      let h' : lookup key table ≡ some row = rw later at h in
      let rest = lookup-delete_old window now key table row h' fresh in
      elim (Bool-cases (ltb (r.updated_at + 2 * window) now)) [
        | inl gone ↦ rw gone rest
        | inr kept ↦ rw (kept, later) rest
      ]
]

abbrev written : Limits → ℕ → ℕ → Option LoginRateLimit → LoginRateLimit
written limits failure_limit now found = record {
  failure_count = next_count limits now found;
  blocked_until = block (failure_backoff limits failure_limit now found) now;
  updated_at = now;
}

remaining-written :
    (limits : Limits) (failure_limit now later : ℕ) (found : Option LoginRateLimit)
    → now ≤ later
    → remaining (some (written limits failure_limit now found)) later
      ≡ failure_backoff limits failure_limit now found - (later - now)
unfolding remaining block
remaining-written limits failure_limit now later found h =
    let b = failure_backoff limits failure_limit now found in
    elim (Bool-cases (ltb 0 b)) [
      | inl blocked ↦ rw blocked (ground arith)
      | inr free ↦ rw free (ground arith)
    ]

larger_minus : (a b t : ℕ) → larger (a - t) (b - t) ≡ larger a b - t
larger_minus a b t = ground arith

module _ (limits : Limits) (f : LoginFingerprint) (now : ℕ) (table : Table) where
  abbrev principal_row : LoginRateLimit
  principal_row =
      written limits limits.login_failure_limit now (lookup f.principal_source_key_hash table)

  abbrev after_principal : Table
  after_principal = insert f.principal_source_key_hash principal_row table

  abbrev source_row : LoginRateLimit
  source_row =
      written limits limits.login_source_failure_limit now
        (lookup f.source_key_hash after_principal)

  abbrev after_both : Table
  after_both = insert f.source_key_hash source_row after_principal

  principal_kept :
      f.principal_source_key_hash ≢ f.source_key_hash
      → lookup f.principal_source_key_hash (delete_old limits.login_failure_window now after_both)
        ≡ some principal_row
  principal_kept apart =
      let p = f.principal_source_key_hash in
      let s = f.source_key_hash in
      let other : (s == p) ≡ false = elim (Bool-cases (s == p)) [
        | inl same ↦ absurd (apart (sym ((eq_iff s p).0 same)))
        | inr differs ↦ differs
      ] in
      let found : lookup p after_both ≡ some principal_row =
        lookup-insert s p source_row after_principal
        ∙ rw other (lookup-insert p p principal_row table ∙ rw (beq_refl p) refl) in
      lookup-delete_old limits.login_failure_window now p after_both principal_row found
        (omega arith)

  source_kept :
      lookup f.source_key_hash (delete_old limits.login_failure_window now after_both)
      ≡ some source_row
  source_kept =
      let s = f.source_key_hash in
      let found : lookup s after_both ≡ some source_row =
        lookup-insert s s source_row after_principal ∙ rw (beq_refl s) refl in
      lookup-delete_old limits.login_failure_window now s after_both source_row found (omega arith)

  -- The delay that a failed login reports is the one that is enforced: at any later time the client
  -- is kept out for what is left of it, and not at all once it is over, if the two keys of the
  -- client differ.
  pub record_login_failure-login_throttle :
      (later : ℕ)
      → f.principal_source_key_hash ≢ f.source_key_hash
      → now ≤ later
      → let (backoff, left) = record_login_failure limits f now table in
        login_throttle f later left ≡ backoff - (later - now)
  unfolding record_login_failure record_login_limit_failure login_throttle login_throttle_for_key
  record_login_failure-login_throttle later apart h =
      let p =
        remaining-written limits limits.login_failure_limit now later
          (lookup f.principal_source_key_hash table) h in
      let s =
        remaining-written limits limits.login_source_failure_limit now later
          (lookup f.source_key_hash after_principal) h in
      rw (principal_kept apart, source_kept, p, s) (larger_minus _ _ (later - now))

  reported_bounded : (record_login_failure limits f now table).0 ≤ limits.login_backoff_max
  unfolding record_login_failure record_login_limit_failure failure_backoff
  reported_bounded = ground (
    arith,
    login_backoff_bounded (next_count limits now (lookup f.principal_source_key_hash table))
        limits.login_failure_limit limits.login_backoff_base limits.login_backoff_max,
    login_backoff_bounded (next_count limits now (lookup f.source_key_hash after_principal))
        limits.login_source_failure_limit limits.login_backoff_base limits.login_backoff_max,
  )

  -- No failure keeps a client whose two keys differ out for longer than the maximum.
  pub record_login_failure_bounded :
      (later : ℕ)
      → f.principal_source_key_hash ≢ f.source_key_hash
      → now ≤ later
      → login_throttle f later (record_login_failure limits f now table).1
        ≤ limits.login_backoff_max
  record_login_failure_bounded later apart h =
      rw (record_login_failure-login_throttle later apart h) (omega (arith, reported_bounded))

-- A successful login of a client whose two keys differ clears the count of the user at this
-- source, and leaves that of the source.
pub record_login_success-login_throttle :
    (f : LoginFingerprint) (now : ℕ) (table : Table)
    → f.principal_source_key_hash ≢ f.source_key_hash
    → login_throttle f now (record_login_success f table)
      ≡ login_throttle_for_key f.source_key_hash now table
unfolding login_throttle login_throttle_for_key record_login_success
record_login_success-login_throttle f now table apart =
    let p = f.principal_source_key_hash in
    let s = f.source_key_hash in
    let other : (p == s) ≡ false = elim (Bool-cases (p == s)) [
      | inl same ↦ absurd (apart ((eq_iff p s).0 same))
      | inr differs ↦ differs
    ] in
    let gone : lookup p (delete p table) ≡ none = lookup-delete p p table ∙ rw (beq_refl p) refl in
    let kept : lookup s (delete p table) ≡ lookup s table =
      lookup-delete p s table ∙ rw other refl in
    rw (gone, kept) (unfold remaining in ground arith)
