-- ===== src/License/Claims.antt =====
-- verifier.go of the control service: `Claims`, `validClaims` and `validTimestamp`. `parse_time`
-- stands for `time.Parse` with RFC 3339; instants are nanoseconds.
use agent_enterprise_protoco.Common.{
  ℕ, String, Bool, true, false, not, ◌&&◌, ◌||◌, Option, none, some, List, ltb, leb, if◌then◌else◌,
  length, any, ◌==◌, nat_eq, string_eq,
}
use Prim.Native.Char.{Char, code}
use agent_enterprise_protoco.Common.Int.{ℤ, is_below}

pub record Claims : Type 0 where
  pub license_id : String
  pub customer_id : String
  pub deployment_id : String
  pub edition : String
  pub issued_at : String
  pub not_before : String
  pub expires_at : Option String
  pub maintenance_until : String
  pub grace_days : ℤ
  pub features : List String

-- One character of the pattern, where "d" stands for a digit.
fits : Char → Char → Bool
fits d c = if code d == b'd' then leb b'0' (code c) && leb (code c) b'9' else code c == code d

matches : String → String → Bool
matches String.[] String.[] = true
matches String.[] (String.◌∷◌ c s) = false
matches (String.◌∷◌ d p) String.[] = false
matches (String.◌∷◌ d p) (String.◌∷◌ c s) = fits d c && matches p s

-- The pattern `^\d{4}-\d{2}-\d{2}T\d{2}:\d{2}:\d{2}\.\d{3}Z$`.
unfoldable pub timestamp_pattern : String → Bool
unfolding fits matches
timestamp_pattern value = matches "dddd-dd-ddTdd:dd:dd.dddZ" value

module _ (parse_time : String → Option ℕ) where
  unfoldable pub valid_timestamp : String → Bool
  valid_timestamp value =
      timestamp_pattern value && elim (parse_time value) [ none ↦ false | some t ↦ true ]

  -- `t, _ := time.Parse(…)`: the zero time where it fails.
  unfoldable pub instant : String → ℕ
  instant value = elim (parse_time value) [ none ↦ 0 | some t ↦ t ]

  unfoldable pub has_names : Claims → Bool
  has_names c = not (
      c.license_id == ""
      || c.customer_id == ""
      || c.deployment_id == ""
      || not (c.edition == "enterprise")
      || not (valid_timestamp c.issued_at)
      || is_below c.grace_days 0)

  unfoldable pub has_optional_times : Claims → Bool
  has_optional_times c = not (
      not (c.not_before == "") && not (valid_timestamp c.not_before)
      || not (c.maintenance_until == "") && not (valid_timestamp c.maintenance_until))

  unfoldable pub has_valid_expiry : String → Option String → Bool
  has_valid_expiry issued_at none = true
  has_valid_expiry issued_at (some expires) =
      valid_timestamp expires && not (ltb (instant expires) (instant issued_at))

  unfoldable pub valid_claims : Claims → Bool
  valid_claims c =
      if not (has_names c)
      then false
      else if not (has_optional_times c)
      then false
      else if not (has_valid_expiry c.issued_at c.expires_at)
      then false
      else if ltb 256 (length c.features)
      then false
      else not (any (λ feature. feature == "") c.features)
