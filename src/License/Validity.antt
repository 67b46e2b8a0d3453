-- ===== src/License/Validity.antt =====
-- What `Verify` of the control service's verifier.go says of a licence that it accepts.
use agent_enterprise_protoco.Common.{
  ℕ, ◌+◌, ◌*◌, ◌%◌, ◌^◌, ◌≤◌, ◌<◌, String, ◌≡◌, ap, ◌∙◌, ◌⊎◌, true, some, arith, leb, if◌then◌else◌,
  nat_eq, string_eq,
}
use agent_enterprise_protoco.Common.Maps.{lookup}
use agent_enterprise_protoco.License.Claims.{Claims, instant, valid_claims}
use agent_enterprise_protoco.License.Verifier.{
  Verified, Key, Codecs, LicenseVerifier, is_signed, envelope_digest, day, add_days, not_before,
  grace_days, status_for, status_at,
}

module _ (codecs : Codecs) where
  -- What has been checked of an accepted licence.
  pub record IsGenuine (v : LicenseVerifier) (now : ℕ) (raw : String) (r : Verified) : Type 0 where
    pub key : Key
    pub decoded : codecs.decode_envelope raw ≡ some r.envelope
    pub trusted : lookup r.envelope.key_id v.trusted_keys ≡ some key
    pub signed : is_signed codecs key r.envelope ≡ true
    pub claims_decoded : codecs.decode_claims r.envelope.payload ≡ some r.claims
    pub claims_valid : valid_claims codecs.parse_time r.claims ≡ true
    pub own_deployment :
        (v.expected_deployment ≡ "") ⊎ (r.claims.deployment_id ≡ v.expected_deployment)
    pub begun : not_before codecs r.claims ≤ now
    pub status_given : r.status ≡ status_at codecs now r.claims
    pub digest_given : envelope_digest codecs r.envelope r.claims ≡ some r.digest

  add_days-plus : (t days : ℕ) → days ≤ 106751 → add_days codecs t days ≡ t + days * day codecs
  unfolding add_days
  add_days-plus t days few =
      let small : days * day codecs < 2 ^ 63 = omega (arith, few) in
      let same : days * day codecs % 2 ^ 64 ≡ days * day codecs = omega (arith, small) in
      rw same ground arith

  status_for-cases :
      (now days : ℕ) (expires : String)
      → days ≤ 106751
      → let t = instant codecs.parse_time expires in
        status_for codecs now days (some expires) ≡ (
          if leb now t
          then "enterprise-active"
          else if leb now (t + days * day codecs)
          then "enterprise-grace"
          else "enterprise-expired")
  unfolding status_for
  status_for-cases now days expires few =
      rw (add_days-plus (instant codecs.parse_time expires) days few) ground arith

  -- The status of a licence that expires: active up to the day, in grace for the days granted, and
  -- expired from then on, for up to 106751 days of grace, which is as many as a duration of Go
  -- can hold.
  pub status_at-cases :
      (now : ℕ) (c : Claims) (expires : String)
      → c.expires_at ≡ some expires
      → grace_days codecs c ≤ 106751
      → let t = instant codecs.parse_time expires in
        status_at codecs now c ≡ (
          if leb now t
          then "enterprise-active"
          else if leb now (t + grace_days codecs c * day codecs)
          then "enterprise-grace"
          else "enterprise-expired")
  unfolding status_at
  status_at-cases now c expires e few =
      ap (status_for codecs now (grace_days codecs c)) e
      ∙ status_for-cases now (grace_days codecs c) expires few
