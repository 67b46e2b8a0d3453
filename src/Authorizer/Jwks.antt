-- ===== src/Authorizer/Jwks.antt =====
-- verifier.go, the trusted keys: the fields of `Verifier` that `key`, `refresh` and `Ready` use.
-- A key is its bytes; `decode` stands for `base64.RawURLEncoding.DecodeString`. The answer of the
-- key server is an argument of the step that asks it.
use agent_enterprise_protoco.Common.{
  ℕ, ◌-◌, String, ◌≡◌, ◌⊎◌, inl, inr, Bool, true, false, not, ◌&&◌, ◌||◌, Option, none, some, List,
  [], ◌∷◌, arith, eq_iff, ltb, if◌then◌else◌, Option-cases, length, ◌==◌, nat_eq, string_eq,
}
use agent_enterprise_protoco.Common.Results.{Result, ok, err}
use agent_enterprise_protoco.Common.Maps.{lookup, insert, lookup-insert}
use agent_enterprise_protoco.Authorizer.Claims.{GatewayError, unavailable}

abbrev pub Key : Type 0
Key = List ℕ

abbrev pub public_key_size : ℕ
public_key_size = 32

-- 1 << 20
abbrev pub max_jwks_bytes : ℕ
max_jwks_bytes = 1048576

pub record Jwk : Type 0 where
  pub kty : String
  pub kid : String
  pub use_as : String
  pub alg : String
  pub crv : String
  pub x : String

-- What reading a body of the given size gives: the decoded document, unless it is no such JSON.
pub data Body (A : Type 0) : Type 0 where
  unreadable : Body A
  content : (size : ℕ) → Option A → Body A

pub data Response (A : Type 0) : Type 0 where
  failed : Response A
  reply : (status : ℕ) → Body A → Response A

pub record KeyStore : Type 0 where
  pub keys : List (String × Key)
  pub fetched_at : Option ℕ
  pub ttl : ℕ

unfoldable pub is_usable : Jwk → Bool
is_usable item = not (
    not (item.kty == "OKP")
    || not (item.crv == "Ed25519")
    || not (item.alg == "EdDSA")
    || not (item.use_as == "sig")
    || item.kid == "")

-- `time.Since(v.fetchedAt) < v.ttl`; never so for the zero time.
unfoldable pub is_fresh : KeyStore → ℕ → Bool
is_fresh s now = elim s.fetched_at [ none ↦ false | some t ↦ ltb (now - t) s.ttl ]

unfoldable pub found_key : String → KeyStore → Result GatewayError Key
found_key kid s = elim (lookup kid s.keys) [ none ↦ err unavailable | some k ↦ ok k ]

unfoldable pub after_refresh :
    String → Result GatewayError (Unit {0}) × KeyStore → Result GatewayError Key × KeyStore
after_refresh kid (err e, s) = (err e, s)
after_refresh kid (ok _, s) = (found_key kid s, s)

abbrev pub is_known : Option Key → Bool
is_known none = false
is_known (some _) = true

module _ (decode : String → Option Key) where
  unfoldable pub add_key : Jwk → Option Key → List (String × Key) → List (String × Key)
  add_key item none keys = keys
  add_key item (some decoded) keys =
      if not (length decoded == public_key_size) then keys else insert item.kid decoded keys

  -- The loop over `document.Keys`.
  unfoldable pub collect_keys : List Jwk → List (String × Key) → List (String × Key)
  collect_keys [] keys = keys
  collect_keys (item ∷ items) keys =
      collect_keys items (if is_usable item then add_key item (decode item.x) keys else keys)

  unfoldable pub read_keys : Body (List Jwk) → Result GatewayError (List (String × Key))
  read_keys unreadable = err unavailable
  read_keys (content size document) =
      if ltb max_jwks_bytes size then err unavailable else elim document [
        | none ↦ err unavailable
        | some items ↦
            let keys = collect_keys items [] in
            if length keys == 0 then err unavailable else ok keys
      ]

  unfoldable pub fetch_keys : Response (List Jwk) → Result GatewayError (List (String × Key))
  fetch_keys failed = err unavailable
  fetch_keys (reply status body) = if not (status == 200) then err unavailable else read_keys body

  -- `now` is the time of the test, `done` that of `v.fetchedAt = time.Now()`.
  unfoldable pub refresh :
      (force : Bool) (now done : ℕ)
      → Response (List Jwk)
      → KeyStore
      → Result GatewayError (Unit {0}) × KeyStore
  refresh force now done response s =
      if not force && is_fresh s now then (ok tt, s) else elim (fetch_keys response) [
        | err e ↦ (err e, s)
        | ok keys ↦ (ok tt, record s { keys = keys; fetched_at = some done })
      ]

  unfoldable pub ready :
      (now done : ℕ) → Response (List Jwk) → KeyStore → Result GatewayError (Unit {0}) × KeyStore
  ready now done response s = refresh true now done response s

  unfoldable pub key :
      (now done : ℕ) → Response (List Jwk) → String → KeyStore → Result GatewayError Key × KeyStore
  key now done response kid s =
      if is_known (lookup kid s.keys) && is_fresh s now
      then (found_key kid s, s)
      else after_refresh kid (refresh (not (is_known (lookup kid s.keys))) now done response s)

  -- An item of the document offers the key under the id.
  abbrev pub Offers : String → Key → Jwk → Type 0
  Offers kid k item =
      (item.kid ≡ kid)
      × (item.kty ≡ "OKP")
      × (item.crv ≡ "Ed25519")
      × (item.alg ≡ "EdDSA")
      × (item.use_as ≡ "sig")
      × (decode item.x ≡ some k)
      × (length k ≡ public_key_size)

  abbrev pub Offered : List Jwk → String → Key → Type 0
  Offered [] kid k = ⊥
  Offered (item ∷ items) kid k = Offers kid k item ⊎ Offered items kid k

  add_key_offered :
      (item : Jwk) (keys : List (String × Key)) (kid : String) (k : Key)
      → lookup kid (if is_usable item then add_key item (decode item.x) keys else keys) ≡ some k
      → Offers kid k item ⊎ (lookup kid keys ≡ some k)
  unfolding add_key is_usable
  add_key_offered item keys kid k h = elim (Option-cases (decode item.x)) [
    | inl e ↦ inr (ground arith)
    | inr (d, e) ↦ ground (
      arith,
      lookup-insert item.kid kid d keys,
      eq_iff item.kid kid,
      eq_iff item.kty "OKP",
      eq_iff item.crv "Ed25519",
      eq_iff item.alg "EdDSA",
      eq_iff item.use_as "sig",
    )
  ]

  pub collect_keys-Offered :
      (items : List Jwk) (keys : List (String × Key)) (kid : String) (k : Key)
      → lookup kid (collect_keys items keys) ≡ some k
      → Offered items kid k ⊎ (lookup kid keys ≡ some k)
  unfolding collect_keys
  collect_keys-Offered [] keys kid k h = inr h
  collect_keys-Offered (item ∷ items) keys kid k h = elim (collect_keys-Offered items _ kid k h) [
    | inl later ↦ inl (inr later)
    | inr here ↦ elim (add_key_offered item keys kid k here) [
      | inl o ↦ inl (inl o)
      | inr old ↦ inr old
    ]
  ]
