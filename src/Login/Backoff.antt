-- ===== src/Login/Backoff.antt =====
-- auth_security.go: `loginBackoff` and `retryAfterSeconds`. Durations are nanoseconds.
use native.Mathlib.Nat.{pow-suc, mul_assoc, mul_comm}
use agent_enterprise_protoco.Common.{
  ℕ, zero, suc, ◌+◌, ◌-◌, ◌*◌, ◌/◌, ◌^◌, ◌≤◌, ◌<◌, ◌≡◌, refl, sym, ap, ◌∙◌, ◌⊎◌, inl, inr, ◌||◌,
  arith, ltb, leb, if◌then◌else◌, Bool-cases, nat_eq, string_eq,
}

-- The steps that are left of the loop, which doubles the delay.
unfoldable pub double : (steps delay maximum : ℕ) → ℕ
double zero delay maximum = if ltb maximum delay then maximum else delay
double (suc steps) delay maximum =
    let rest = double steps (delay * 2) maximum in
    if leb maximum delay || ltb (maximum / 2) delay then maximum else rest

unfoldable pub login_backoff : (failure_count failure_limit base maximum : ℕ) → ℕ
login_backoff failure_count failure_limit base maximum =
    if ltb failure_count failure_limit
    then 0
    else double (failure_count - failure_limit) base maximum

abbrev pub second : ℕ
second = 1000000000

unfoldable pub retry_after_seconds : ℕ → ℕ
retry_after_seconds duration =
    let seconds = (duration + second - 1) / second in if ltb seconds 1 then 1 else seconds

abbrev pub least : ℕ → ℕ → ℕ
least a b = if ltb b a then b else a

-- How the powers grow.
pow_step : (steps delay : ℕ) → delay * 2 ^ suc steps ≡ delay * 2 ^ steps * 2
pow_step steps delay = ap (λ x. delay * x) (pow-suc 2 steps) ∙ sym (mul_assoc delay (2 ^ steps) 2)

pow_shift : (steps delay : ℕ) → delay * 2 ^ suc steps ≡ delay * 2 * 2 ^ steps
pow_shift steps delay =
    ap (λ x. delay * x) (pow-suc 2 steps ∙ mul_comm (2 ^ steps) 2)
    ∙ sym (mul_assoc delay 2 (2 ^ steps))

grown : (steps delay : ℕ) → delay ≤ delay * 2 ^ steps
grown zero delay = omega arith
grown (suc steps) delay = omega (arith, grown steps delay, pow_step steps delay)

least_below : (a b : ℕ) → b ≤ a → least a b ≡ b
least_below a b h = ground arith

double-least :
    (steps delay maximum : ℕ) → double steps delay maximum ≡ least (delay * 2 ^ steps) maximum
unfolding double
double-least zero delay maximum = ground arith
double-least (suc steps) delay maximum =
    elim (Bool-cases (leb maximum delay || ltb (maximum / 2) delay)) [
      | inl over ↦
          let reached : maximum ≤ delay * 2 = ground arith in
          let above : maximum ≤ delay * 2 ^ suc steps =
            omega (arith, reached, grown steps (delay * 2), pow_shift steps delay) in
          rw over (sym (least_below (delay * 2 ^ suc steps) maximum above))
      | inr under ↦ rw under (
          double-least steps (delay * 2) maximum
          ∙ ap (λ x. least x maximum) (sym (pow_shift steps delay)))
    ]

-- The delay after a failed login is none below the limit of failures, and from there on it doubles
-- from the base with every further failure, up to the maximum.
pub login_backoff_doubles :
    (failure_count failure_limit base maximum : ℕ)
    → login_backoff failure_count failure_limit base maximum ≡ (
        if ltb failure_count failure_limit
        then 0
        else least (base * 2 ^ (failure_count - failure_limit)) maximum)
unfolding login_backoff
login_backoff_doubles failure_count failure_limit base maximum =
    rw (double-least (failure_count - failure_limit) base maximum) refl

pub login_backoff_bounded :
    (failure_count failure_limit base maximum : ℕ)
    → login_backoff failure_count failure_limit base maximum ≤ maximum
login_backoff_bounded failure_count failure_limit base maximum =
    rw (login_backoff_doubles failure_count failure_limit base maximum) ground arith

-- The header never asks a client to come back before the delay is over, and not a second later
-- than needed but for the shortest delays.
pub retry_after_seconds_covers :
    (duration : ℕ)
    → (duration ≤ retry_after_seconds duration * second)
      × ((retry_after_seconds duration * second < duration + second) ⊎ (duration ≡ 0))
unfolding retry_after_seconds
retry_after_seconds_covers duration = (
  ground arith,
  elim (Bool-cases (ltb 0 duration)) [
    | inl some_wait ↦ inl (ground arith)
    | inr no_wait ↦ inr (ground arith)
  ],
)
