-- ===== src/Login/Limits.antt =====
-- auth_security.go: the table `login_rate_limits`, with `loginThrottle`, `recordLoginFailure` and
-- `recordLoginSuccess` on it. A key is the hash that the code stores; a request that fails leaves
-- the table alone, and the audit rows are left out. Instants and durations are nanoseconds.
use agent_enterprise_protoco.Common.{
  ℕ, ◌+◌, ◌-◌, ◌*◌, String, Option, none, some, List, [], ◌∷◌, ltb, if◌then◌else◌, nat_eq,
  string_eq,
}
use agent_enterprise_protoco.Common.Maps.{lookup, insert, delete}
use agent_enterprise_protoco.Login.Backoff.{login_backoff}

pub record LoginFingerprint : Type 0 where
  pub principal_source_key_hash : String
  pub source_key_hash : String

pub record Limits : Type 0 where
  pub login_failure_limit : ℕ
  pub login_source_failure_limit : ℕ
  pub login_failure_window : ℕ
  pub login_backoff_base : ℕ
  pub login_backoff_max : ℕ

pub record LoginRateLimit : Type 0 where
  pub failure_count : ℕ
  pub blocked_until : Option ℕ
  pub updated_at : ℕ

abbrev pub Table : Type 0
Table = List (String × LoginRateLimit)

abbrev pub larger : ℕ → ℕ → ℕ
larger a b = if ltb a b then b else a

-- `blockedUntil.Time.Sub(now)`, if it is positive.
unfoldable pub remaining : Option LoginRateLimit → ℕ → ℕ
remaining none now = 0
remaining (some row) now = elim row.blocked_until [ none ↦ 0 | some t ↦ t - now ]

unfoldable pub login_throttle_for_key : String → ℕ → Table → ℕ
login_throttle_for_key key_hash now table = remaining (lookup key_hash table) now

unfoldable pub login_throttle : LoginFingerprint → ℕ → Table → ℕ
login_throttle fingerprint now table =
    larger (login_throttle_for_key fingerprint.principal_source_key_hash now table)
      (login_throttle_for_key fingerprint.source_key_hash now table)

-- `INSERT … ON CONFLICT … RETURNING failure_count`: a count that is older than the window begins
-- anew.
unfoldable pub next_count : Limits → ℕ → Option LoginRateLimit → ℕ
next_count limits now none = 1
next_count limits now (some row) =
    if ltb (row.updated_at + limits.login_failure_window) now then 1 else row.failure_count + 1

unfoldable pub block : ℕ → ℕ → Option ℕ
block backoff now = if ltb 0 backoff then some (now + backoff) else none

unfoldable pub failure_backoff : Limits → (failure_limit : ℕ) → ℕ → Option LoginRateLimit → ℕ
failure_backoff limits failure_limit now found =
    login_backoff (next_count limits now found) failure_limit limits.login_backoff_base
      limits.login_backoff_max

unfoldable pub record_login_limit_failure :
    Limits → (key_hash : String) → (failure_limit : ℕ) → ℕ → Table → ℕ × Table
record_login_limit_failure limits key_hash failure_limit now table =
    let found = lookup key_hash table in
    let backoff = failure_backoff limits failure_limit now found in
    (
      backoff,
      insert key_hash
          (record {
            failure_count = next_count limits now found;
            blocked_until = block backoff now;
            updated_at = now;
          })
          table,
    )

-- `DELETE … WHERE updated_at < now - 2*window`.
unfoldable pub delete_old : ℕ → ℕ → Table → Table
delete_old window now [] = []
delete_old window now ((key, row) ∷ table) =
    let rest = delete_old window now table in
    if ltb (row.updated_at + 2 * window) now then rest else (key, row) ∷ rest

unfoldable pub record_login_failure : Limits → LoginFingerprint → ℕ → Table → ℕ × Table
record_login_failure limits fingerprint now table =
    let (principal_backoff, table₁) =
      record_login_limit_failure limits fingerprint.principal_source_key_hash
        limits.login_failure_limit now table in
    let (source_backoff, table₂) =
      record_login_limit_failure limits fingerprint.source_key_hash
        limits.login_source_failure_limit now table₁ in
    (larger principal_backoff source_backoff, delete_old limits.login_failure_window now table₂)

unfoldable pub record_login_success : LoginFingerprint → Table → Table
record_login_success fingerprint table = delete fingerprint.principal_source_key_hash table
