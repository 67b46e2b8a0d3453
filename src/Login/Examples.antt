-- ===== src/Login/Examples.antt =====
-- Logins throttled, evaluated: tests and instances of the properties of the throttling.
use agent_enterprise_protoco.Common.{
  ℕ, ◌+◌, ◌-◌, ◌*◌, ◌≤◌, ◌<◌, String, ◌≡◌, refl, ◌≢◌, ◌⊎◌, Option, none, some, [], ◌∷◌, arith,
  eq_iff, if◌then◌else◌, ◌==◌, nat_eq, string_eq,
}
use agent_enterprise_protoco.Common.Text.{trim_space}
use agent_enterprise_protoco.Common.Maps.{lookup, insert, delete}
use agent_enterprise_protoco.Login.Backoff.{
  login_backoff, double, second, retry_after_seconds, login_backoff_doubles,
  retry_after_seconds_covers,
}
use agent_enterprise_protoco.Login.Limits.{
  LoginFingerprint, Limits, Table, remaining, login_throttle_for_key, login_throttle, next_count,
  block, failure_backoff, record_login_limit_failure, delete_old, record_login_failure,
  record_login_success,
}
use agent_enterprise_protoco.Login.Throttle.{
  record_login_failure-login_throttle, record_login_failure_bounded,
  record_login_success-login_throttle,
}
use agent_enterprise_protoco.Login.Source.{
  login_source, forwarded_source, walk_back, login_source_unforgeable,
}

run : Unit {0}
unfolding login_backoff double retry_after_seconds remaining login_throttle_for_key login_throttle
    next_count block failure_backoff record_login_limit_failure delete_old record_login_failure
    record_login_success lookup insert delete login_source forwarded_source walk_back trim_space
run = tt

abbrev limits : Limits
limits = record {
  login_failure_limit = 2;
  login_source_failure_limit = 5;
  login_failure_window = 100;
  login_backoff_base = 10;
  login_backoff_max = 35;
}

abbrev client : LoginFingerprint
client = record { principal_source_key_hash = "p"; source_key_hash = "s" }

abbrev fail : ℕ → Table → Table
fail now table = (record_login_failure limits client now table).1

-- Failures at 1, 2, 15 and 40.
abbrev failed : Table
failed = fail 40 (fail 15 (fail 2 (fail 1 [])))

delays :
    (login_throttle client 1 (fail 1 []) ≡ 0)
    × (login_throttle client 3 (fail 2 (fail 1 [])) ≡ 9)
    × (login_throttle client 40 failed ≡ 35)
    × (login_throttle client 40 (record_login_success client failed) ≡ 0)
unfolding run
delays = (refl, refl, refl, refl)

apart : ◌≢◌ {A = String} "p" "s"
apart = ground (arith, eq_iff "p" "s")

login_backoff_doubles_example : login_backoff 4 2 10 35 ≡ 35
unfolding run
login_backoff_doubles_example = login_backoff_doubles 4 2 10 35

retry_after_seconds_covers_test :
    (1 ≤ retry_after_seconds 1 * second)
    × ((retry_after_seconds 1 * second < 1 + second) ⊎ (Path ℕ 1 0))
retry_after_seconds_covers_test = retry_after_seconds_covers 1

record_login_failure-login_throttle_example :
    login_throttle client 50 failed
    ≡ (record_login_failure limits client 40 (fail 15 (fail 2 (fail 1 [])))).0 - 10
record_login_failure-login_throttle_example =
    record_login_failure-login_throttle limits client 40 (fail 15 (fail 2 (fail 1 []))) 50 apart
      (omega arith)

record_login_failure_bounded_test : login_throttle client 41 failed ≤ 35
record_login_failure_bounded_test =
    record_login_failure_bounded limits client 40 (fail 15 (fail 2 (fail 1 []))) 41 apart
      (omega arith)

record_login_success-login_throttle_test :
    login_throttle client 40 (record_login_success client failed)
    ≡ login_throttle_for_key "s" 40 failed
record_login_success-login_throttle_test =
    record_login_success-login_throttle client 40 failed apart

-- Addresses written as texts; "proxy" is trusted.
abbrev read_address : String → Option String
read_address s = if s == "" then none else some s

abbrev same : String → String
same s = s

login_source_unforgeable_example :
    login_source read_address read_address same
      (λ a. a == "proxy")
      "proxy"
      ("proxy" ∷ " 5.6.7.8" ∷ "1.1.1.1" ∷ [])
    ≡ some "5.6.7.8"
unfolding run
login_source_unforgeable_example =
    login_source_unforgeable read_address read_address same (λ a. a == "proxy") "proxy" "proxy"
      "5.6.7.8" ("proxy" ∷ []) " 5.6.7.8" ("1.1.1.1" ∷ []) refl (("proxy", refl, refl), tt) refl
      refl
