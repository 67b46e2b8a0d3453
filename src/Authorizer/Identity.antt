-- ===== src/Authorizer/Identity.antt =====
-- identity.go: `gatewayIdentity`, `identity` and `membershipHeader`, with `Consumer` of
-- services/internal/gatewaysource/source.go. `encode` stands for `base64.RawURLEncoding` of a text's
-- bytes; the answer of the identity service is an argument. Instants are nanoseconds.
use agent_enterprise_protoco.Common.{
  ℕ, ◌+◌, ◌≤◌, String, ◌≡◌, sym, ◌≢◌, ◌⊎◌, inl, inr, Bool, not, ◌||◌, Option, none, some, List, [],
  ◌∷◌, arith, eq_iff, ltb, if◌then◌else◌, Bool-cases, length, ◌==◌, nat_eq, string_eq, sort_by,
}
use agent_enterprise_protoco.Common.Results.{
  Result, ok, err, refuse_if, refuse_if-ok, >>=-eq-ok, ◌>>=◌, ◌>>◌,
}
use Prim.Native.String.{len}
use mathlib.Core.Path.{subst}
use agent_enterprise_protoco.Common.Text.{append, str_lt}
use agent_enterprise_protoco.Authorizer.Claims.{ModelClaims, GatewayError, inactive, unavailable}

pub record GatewayIdentity : Type 0 where
  pub deployment_id : String
  pub user_id : String
  pub consumer : String
  pub roles : List String
  pub teams : List String
  pub observed_at : ℕ

-- The request failed, or a response: its status, the size of its body, and the decoded body.
pub data IdentityResponse : Type 0 where
  failed : IdentityResponse
  reply : (status size : ℕ) → Option GatewayIdentity → IdentityResponse

abbrev pub minute : ℕ
minute = 60000000000

-- `slices.Compact`: equal neighbours become one.
unfoldable pub compact : List String → List String
compact [] = []
compact (a ∷ []) = a ∷ []
compact (a ∷ b ∷ ids) = let rest = compact (b ∷ ids) in if a == b then rest else a ∷ rest

module _ (encode : String → String) where
  -- "aep." + deployment + "." + user, encoded.
  unfoldable pub consumer : String → String → String
  consumer deployment user = append "aep." (append (encode deployment) (append "." (encode user)))

  unfoldable pub encode_ids : List String → Result GatewayError (List String)
  encode_ids [] = ok []
  encode_ids (id ∷ ids) =
      if id == "" || ltb 256 (len id)
      then err unavailable
      else do ok (encode id ∷ (← encode_ids ids))

  unfoldable pub join_bars : List String → String
  join_bars [] = "|"
  join_bars (part ∷ parts) = append "|" (append part (join_bars parts))

  unfoldable pub membership_header : List String → Result GatewayError String
  unfolding compact encode_ids join_bars
  membership_header ids =
      let distinct = compact (sort_by str_lt ids) in
      if length distinct == 0 then ok "" else do ok (join_bars (← encode_ids distinct))

  -- What `identity` compares an answer with: what the claims say, with no memberships.
  unfoldable pub claimed_identity : ModelClaims → GatewayIdentity
  claimed_identity claims = record {
    deployment_id = claims.deployment_id;
    user_id = claims.subject;
    consumer = consumer claims.deployment_id claims.subject;
    roles = [];
    teams = [];
    observed_at = 0;
  }

  -- The tests of a decoded answer.
  unfoldable pub is_foreign : GatewayIdentity → GatewayIdentity → Bool
  is_foreign result identity =
      not (result.deployment_id == identity.deployment_id)
      || not (result.user_id == identity.user_id)
      || not (result.consumer == identity.consumer)

  unfoldable pub is_untimely : GatewayIdentity → ℕ → Bool
  is_untimely result now =
      ltb (result.observed_at + minute) now || ltb (now + minute) result.observed_at

  unfoldable pub accept_identity :
      ℕ → GatewayIdentity → GatewayIdentity → Result GatewayError GatewayIdentity
  accept_identity now identity result = do
    refuse_if (is_foreign result identity) unavailable
    refuse_if (is_untimely result now) unavailable
    refuse_if (ltb 100 (length result.teams) || ltb 100 (length result.roles)) unavailable
    _ ← membership_header result.teams
    _ ← membership_header result.roles
    ok result

  unfoldable pub read_identity :
      ℕ → GatewayIdentity → IdentityResponse → Result GatewayError GatewayIdentity
  read_identity now identity failed = err unavailable
  read_identity now identity (reply status size document) =
      if status == 403
      then err inactive
      else if not (status == 200)
      then err unavailable
      else if ltb 32768 size
      then err unavailable
      else elim document [
        | none ↦ err unavailable
        | some result ↦ accept_identity now identity result
      ]

  unfoldable pub identity :
      (identity_url : String)
      → ℕ
      → ModelClaims
      → IdentityResponse
      → Result GatewayError GatewayIdentity
  identity identity_url now claims response =
      if identity_url == ""
      then ok (claimed_identity claims)
      else read_identity now (claimed_identity claims) response

  -- The identity is that of the token, and it is recent.
  pub record IsOwn (now : ℕ) (claims : ModelClaims) (r : GatewayIdentity) : Type 0 where
    pub same_deployment : r.deployment_id ≡ claims.deployment_id
    pub same_user : r.user_id ≡ claims.subject
    pub same_consumer : r.consumer ≡ consumer claims.deployment_id claims.subject
    pub few_teams : length r.teams ≤ 100
    pub few_roles : length r.roles ≤ 100
    pub teams_header : (v : String) × (membership_header r.teams ≡ ok v)
    pub roles_header : (v : String) × (membership_header r.roles ≡ ok v)

  abbrev pub IsTimely : ℕ → GatewayIdentity → Type 0
  IsTimely now r = (now ≤ r.observed_at + minute) × (r.observed_at ≤ now + minute)

  accept_identity-IsOwn :
      (now : ℕ) (claims : ModelClaims) (result r : GatewayIdentity)
      → accept_identity now (claimed_identity claims) result ≡ ok r
      → IsOwn now claims r × IsTimely now r
  unfolding accept_identity is_foreign is_untimely claimed_identity
  accept_identity-IsOwn now claims result r h =
      let (e₁, h₁) = refuse_if-ok (is_foreign result (claimed_identity claims)) unavailable _ h in
      let (e₂, h₂) = refuse_if-ok (is_untimely result now) unavailable _ h₁ in
      let (e₃, h₃) =
        refuse_if-ok (ltb 100 (length result.teams) || ltb 100 (length result.roles)) unavailable _
          h₂ in
      let (v, e₄, h₄) = >>=-eq-ok (membership_header result.teams) _ h₃ in
      let (w, e₅, h₅) = >>=-eq-ok (membership_header result.roles) _ h₄ in
      let same : result ≡ r = cc in
      subst (λ x. IsOwn now claims x × IsTimely now x) same
        (
          record {
            same_deployment = ground (arith, eq_iff result.deployment_id claims.deployment_id);
            same_user = ground (arith, eq_iff result.user_id claims.subject);
            same_consumer =
                ground
                  (arith, eq_iff result.consumer (consumer claims.deployment_id claims.subject));
            few_teams = ground arith;
            few_roles = ground arith;
            teams_header = (v, e₄);
            roles_header = (w, e₅);
          },
          (ground arith, ground arith),
        )

  read_identity-IsOwn :
      (now : ℕ) (claims : ModelClaims) (response : IdentityResponse) (r : GatewayIdentity)
      → read_identity now (claimed_identity claims) response ≡ ok r
      → IsOwn now claims r × IsTimely now r
  unfolding read_identity
  read_identity-IsOwn now claims failed r h = cc
  read_identity-IsOwn now claims (reply status size none) r h = ground arith
  read_identity-IsOwn now claims (reply status size (some result)) r h =
      accept_identity-IsOwn now claims result r (ground arith)

  -- An identity that the gateway goes on with is the user, the deployment and the consumer of the
  -- token. One that the identity service names has been observed within a minute of now, in either
  -- direction, and names at most 100 teams and 100 roles, all of which can be encoded. Without such a
  -- service it is the identity that the token claims, with no memberships.
  pub identity-IsOwn :
      (url : String) (now : ℕ) (claims : ModelClaims) (response : IdentityResponse)
      (r : GatewayIdentity)
      → identity url now claims response ≡ ok r
      → ((url ≡ "") × (r ≡ claimed_identity claims))
        ⊎ ((url ≢ "") × IsOwn now claims r × IsTimely now r)
  unfolding identity
  identity-IsOwn url now claims response r h = elim (Bool-cases (url == "")) [
    | inl none_set ↦
        let same : claimed_identity claims ≡ r = ground arith in
        inl ((eq_iff url "").0 none_set, sym same)
    | inr set_up ↦
        let own = read_identity-IsOwn now claims response r (ground arith) in
        inr (λ e. ground (arith, (eq_iff url "").1 e), own.0, own.1)
  ]
