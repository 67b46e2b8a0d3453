-- ===== src/Authorizer/Staleness.antt =====
-- How old an answer of `CheckEntitlement` of verifier.go can be, over any sequence of checks.
use agent_enterprise_protoco.Common.{
  ℕ, ◌+◌, ◌≤◌, String, ◌≡◌, refl, ap, ◌⊎◌, inl, inr, true, not, ◌||◌, Option, none, some, List, [],
  ◌∷◌, arith, nat_beq_iff, Bool-cases, All, All-map, ◌==◌, nat_eq, string_eq,
}
use agent_enterprise_protoco.Common.Results.{Result, ok}
use agent_enterprise_protoco.Common.Maps.{lookup, All-lookup, All-insert}
use Prim.Native.Char.{Char}
use agent_enterprise_protoco.Common.Split.{NoChar, split_unique}
use agent_enterprise_protoco.Authorizer.Claims.{ModelClaims, GatewayError}
use agent_enterprise_protoco.Authorizer.Entitlement.{
  StatusCacheEntry, StatusState, StatusDocument, StatusResponse, failed, reply, cache_key, is_live,
  evict, is_active, remember, ask_status, check_cached, check_entitlement,
}

-- One check: when, for whom, and what the licence service would answer.
pub record Call : Type 0 where
  pub now : ℕ
  pub claims : ModelClaims
  pub model_id : String
  pub response : StatusResponse

abbrev pub check : Call → StatusState → Result GatewayError (Unit {0}) × StatusState
check c s = check_entitlement c.now c.claims c.model_id c.response s

-- The state after the checks, the last one at the head.
unfoldable pub after : List Call → StatusState → StatusState
after [] s = s
after (c ∷ calls) s = (check c (after calls s)).1

-- The licence service confirms the licence of the check's token.
abbrev pub Confirms : Call → Type 0
Confirms c =
    (d : StatusDocument) × (c.response ≡ reply 200 (some d)) × (is_active c.claims d ≡ true)

abbrev pub In : Call → List Call → Type 0
In c [] = ⊥
In c (x ∷ calls) = (c ≡ x) ⊎ In c calls

-- Among the checks there is one of the key that was confirmed, at the start of the period.
abbrev pub Backed : ℕ → List Call → String → ℕ → Type 0
Backed ttl calls k expires_at =
    (c : Call) × In c calls
    × (cache_key c.claims c.model_id ≡ k)
    × Confirms c
    × (expires_at ≡ c.now + ttl)

abbrev BackedEntry : ℕ → List Call → String × StatusCacheEntry → Type 0
BackedEntry ttl calls (k, entry) = entry.active ≡ true → Backed ttl calls k entry.expires_at

abbrev IsBacked : ℕ → List Call → StatusState → Type 0
IsBacked ttl calls s = (s.license_status_ttl ≡ ttl) × All (BackedEntry ttl calls) s.status_cache

older :
    (ttl : ℕ) (x : Call) (calls : List Call) (k : String) (t : ℕ)
    → Backed ttl calls k t
    → Backed ttl (x ∷ calls) k t
older ttl x calls k t (c, i, q, f, e) = (c, inr i, q, f, e)

evict-All :
    (P : String × StatusCacheEntry → Type 0) (now : ℕ) (cache : List (String × StatusCacheEntry))
    → All P cache
    → All P (evict now cache)
unfolding evict
evict-All P now [] h = tt
evict-All P now ((k, entry) ∷ cache) (p, h) = elim (Bool-cases (not (is_live now entry))) [
  | inl dead ↦ rw dead (evict-All P now cache h)
  | inr live ↦ rw live (p, evict-All P now cache h)
]

module _ (ttl : ℕ) (x : Call) (calls : List Call) where
  -- What one check leaves, and what its success means.
  abbrev Kept : Result GatewayError (Unit {0}) × StatusState → Type 0
  Kept (r, s) =
      IsBacked ttl (x ∷ calls) s
      × (r ≡ ok tt
          → (t : ℕ) × Backed ttl (x ∷ calls) (cache_key x.claims x.model_id) t × (x.now ≤ t))

  remember-Kept :
      (d : StatusDocument) (s : StatusState)
      → IsBacked ttl (x ∷ calls) s
      → x.response ≡ reply 200 (some d)
      → Kept (remember x.now x.claims x.model_id d s)
  unfolding remember
  remember-Kept d s (period, h) e =
      let k = cache_key x.claims x.model_id in
      let t = x.now + s.license_status_ttl in
      let backed : is_active x.claims d ≡ true → Backed ttl (x ∷ calls) k t =
        λ act. (x, inl refl, refl, (d, e, act), ap (λ n. x.now + n) period) in
      (
        (period, All-insert (BackedEntry ttl (x ∷ calls)) k _ s.status_cache h backed),
        λ r. (t, backed (ground arith), omega arith),
      )

  ask-Kept :
      (response : StatusResponse) (s : StatusState)
      → x.response ≡ response
      → IsBacked ttl (x ∷ calls) s
      → Kept (ask_status x.now x.claims x.model_id response s)
  unfolding ask_status
  ask-Kept failed s e h = (h, λ r. cc)
  ask-Kept (reply status none) s e h = (h, λ r. cc)
  ask-Kept (reply status (some d)) s e h = elim (Bool-cases (status == 200)) [
    | inl good ↦ rw good (remember-Kept d s h (rw (← (nat_beq_iff status 200).0 good) e))
    | inr bad ↦ rw bad (h, λ r. cc)
  ]

  cached-Kept :
      (s : StatusState) (found : Option StatusCacheEntry)
      → IsBacked ttl (x ∷ calls) s
      → lookup (cache_key x.claims x.model_id) s.status_cache ≡ found
      → Kept (check_cached x.now x.claims x.model_id x.response s found)
  unfolding check_cached
  cached-Kept s none h e = ask-Kept x.response s refl h
  cached-Kept s (some entry) h e = elim (Bool-cases (is_live x.now entry)) [
    | inl live ↦ rw live (
      h,
      λ r. (
        entry.expires_at,
        All-lookup (BackedEntry ttl (x ∷ calls)) (cache_key x.claims x.model_id) entry
            s.status_cache h.1 e (ground arith),
        unfold is_live in ground arith,
      ),
    )
    | inr dead ↦ rw dead (ask-Kept x.response s refl h)
  ]

  entitlement-Kept : (s : StatusState) → IsBacked ttl calls s → Kept (check x s)
  unfolding check_entitlement
  entitlement-Kept s (period, h) =
      let h' =
        All-map (BackedEntry ttl calls) (BackedEntry ttl (x ∷ calls))
          (λ p b act. older ttl x calls p.0 p.1.expires_at (b act)) s.status_cache h in
      elim (Bool-cases (s.license_status_url == "" || s.license_status_token == "")) [
        | inl off ↦ rw off ((period, h'), λ r. cc)
        | inr on ↦
            let swept = record s { status_cache = evict x.now s.status_cache } in
            rw on (
              cached-Kept swept _
                (period, evict-All (BackedEntry ttl (x ∷ calls)) x.now s.status_cache h') refl)
      ]

after-IsBacked :
    (s : StatusState) (calls : List Call)
    → s.status_cache ≡ []
    → IsBacked s.license_status_ttl calls (after calls s)
unfolding after
after-IsBacked s [] e = (refl, rw e tt)
after-IsBacked s (c ∷ calls) e =
    (entitlement-Kept s.license_status_ttl c calls (after calls s) (after-IsBacked s calls e)).0

-- Whatever checks have gone before, starting from an empty cache: an entitlement is accepted only
-- if the licence service confirmed, in this check or in an earlier one with the same cache key, that
-- the licence is active with the digest and the
-- deployment of the token, and this check is made within the configured period after that one.
pub check_entitlement_recent :
    (s : StatusState) (calls : List Call) (x : Call)
    → s.status_cache ≡ []
    → (check x (after calls s)).0 ≡ ok tt
    → (c : Call) × In c (x ∷ calls)
      × (cache_key c.claims c.model_id ≡ cache_key x.claims x.model_id)
      × Confirms c
      × (x.now ≤ c.now + s.license_status_ttl)
check_entitlement_recent s calls x e h =
    let (t, (c, i, k, f, q), le) =
      (entitlement-Kept s.license_status_ttl x calls (after calls s) (after-IsBacked s calls e)).1
        h in
    (c, i, k, f, omega arith)

abbrev nul : Char
nul = "\0"

-- No part of the cache key of a check holds a zero byte, but for the model.
abbrev pub NulFree : ModelClaims → Type 0
NulFree claims =
    NoChar nul claims.license_id
    × NoChar nul claims.license_digest
    × NoChar nul claims.deployment_id
    × NoChar nul claims.subject
    × NoChar nul claims.session_id

-- Cached answers are not mixed up: for claims without zero bytes, equal cache keys are those of one
-- licence, digest, deployment, user and session, and of one model.
pub cache_key_inj :
    (c d : ModelClaims) (model model' : String)
    → NulFree c
    → NulFree d
    → cache_key c model ≡ cache_key d model'
    → (c.license_id ≡ d.license_id)
      × (c.license_digest ≡ d.license_digest)
      × (c.deployment_id ≡ d.deployment_id)
      × (c.subject ≡ d.subject)
      × (c.session_id ≡ d.session_id)
      × (model ≡ model')
unfolding cache_key
cache_key_inj c d model model' h k e =
    let (a₁, e₁) = split_unique nul _ _ _ _ h.0 k.0 e in
    let (a₂, e₂) = split_unique nul _ _ _ _ h.1 k.1 e₁ in
    let (a₃, e₃) = split_unique nul _ _ _ _ h.2 k.2 e₂ in
    let (a₄, e₄) = split_unique nul _ _ _ _ h.3 k.3 e₃ in
    let (a₅, e₅) = split_unique nul _ _ _ _ h.4 k.4 e₄ in (a₁, a₂, a₃, a₄, a₅, e₅)
