-- ===== src/Authorizer/KeyTrust.antt =====
-- When verifier.go trusts a key.
use agent_enterprise_protoco.Common.{
  ℕ, ◌≤◌, ◌<◌, String, ◌≡◌, refl, sym, ap, ◌⊎◌, inl, inr, Bool, true, false, not, ◌&&◌, Option,
  none, some, List, [], arith, Bool-cases, length, nat_eq, string_eq,
}
use agent_enterprise_protoco.Common.Results.{Result, ok, err}
use agent_enterprise_protoco.Common.Maps.{lookup}
use agent_enterprise_protoco.Authorizer.Claims.{GatewayError}
use agent_enterprise_protoco.Authorizer.Jwks.{
  Key, max_jwks_bytes, Jwk, Body, unreadable, content, Response, failed, reply, KeyStore, is_fresh,
  collect_keys, read_keys, fetch_keys, refresh, found_key, after_refresh, is_known, key, Offered,
  collect_keys-Offered,
}

found_key-ok :
    (kid : String) (s : KeyStore) (k : Key) → found_key kid s ≡ ok k → lookup kid s.keys ≡ some k
unfolding found_key
found_key-ok kid s k h = ground arith

no_key : {B : Type 0} (kid : String) (k : Key) → lookup {V = Key} kid [] ≡ some k → B
unfolding lookup
no_key kid k h = cc

after_err :
    {B : Type 0} (kid : String) (e : GatewayError) (s s' : KeyStore) (k : Key)
    → after_refresh kid (err e, s) ≡ (ok k, s')
    → B
unfolding after_refresh
after_err kid e s s' k h = cc (ap (λ (p : Result GatewayError Key × KeyStore). p.0) h)

after_ok :
    (kid : String) (t s' : KeyStore) (k : Key)
    → after_refresh kid (ok tt, t) ≡ (ok k, s')
    → (found_key kid t ≡ ok k) × (t ≡ s')
unfolding after_refresh
after_ok kid t s' k h = (
  ap (λ (p : Result GatewayError Key × KeyStore). p.0) h,
  ap (λ (p : Result GatewayError Key × KeyStore). p.1) h,
)

known_fresh :
    (kid : String) (s : KeyStore) (now : ℕ)
    → (is_known (lookup kid s.keys) && is_fresh s now) ≡ false
    → not (is_known (lookup kid s.keys)) ≡ false
    → is_fresh s now ≡ true
    → ⊥
known_fresh kid s now h f g = ground arith

module _ (decode : String → Option Key) where
  -- The response of the key server is a document of a usable size with at least one usable key.
  abbrev pub Accepted : Response (List Jwk) → List Jwk → Type 0
  Accepted response items =
      (size : ℕ) × (response ≡ reply 200 (content size (some items))) × (size ≤ max_jwks_bytes)

  read_keys-ok :
      (body : Body (List Jwk)) (keys : List (String × Key))
      → read_keys decode body ≡ ok keys
      → (size : ℕ) × (items : List Jwk) × (body ≡ content size (some items))
        × (size ≤ max_jwks_bytes)
        × (keys ≡ collect_keys decode items [])
        × (0 < length keys)
  unfolding read_keys
  read_keys-ok unreadable keys e = cc
  read_keys-ok (content size none) keys e = ground arith
  read_keys-ok (content size (some items)) keys e =
      (size, items, refl, ground arith, ground arith, ground arith)

  fetch_keys-ok :
      (response : Response (List Jwk)) (keys : List (String × Key))
      → fetch_keys decode response ≡ ok keys
      → (items : List Jwk) × Accepted response items
        × (keys ≡ collect_keys decode items [])
        × (0 < length keys)
  unfolding fetch_keys
  fetch_keys-ok failed keys e = cc
  fetch_keys-ok (reply status body) keys e =
      let (size, items, b, small, ks, some_key) = read_keys-ok body keys (ground arith) in
      (items, (size, ground arith, small), ks, some_key)

  -- A refresh that fails leaves the trusted keys and their age as they were; one that succeeds
  -- leaves them too, if it was not forced and they were fresh, or replaces them by the non-empty
  -- set of usable keys of the document just read.
  pub refresh_outcomes :
      (force : Bool) (now done : ℕ) (response : Response (List Jwk)) (s : KeyStore)
      → ((e : GatewayError) × (refresh decode force now done response s ≡ (err e, s)))
        ⊎ ((refresh decode force now done response s ≡ (ok tt, s))
            × (force ≡ false)
            × (is_fresh s now ≡ true))
        ⊎ ((items : List Jwk) × Accepted response items
            × (0 < length (collect_keys decode items []))
            × (refresh decode force now done response s ≡ (
              ok tt,
              record s { keys = collect_keys decode items []; fetched_at = some done },
            )))
  unfolding refresh
  refresh_outcomes force now done response s = elim (Bool-cases (not force && is_fresh s now)) [
    | inl idle ↦ inr (inl (rw idle, ground arith, ground arith))
    | inr busy ↦ by_response (fetch_keys decode response) refl busy
  ]
    where
      by_response :
          (r : Result GatewayError (List (String × Key)))
          → fetch_keys decode response ≡ r
          → (not force && is_fresh s now) ≡ false
          → ((e : GatewayError) × (refresh decode force now done response s ≡ (err e, s)))
            ⊎ ((refresh decode force now done response s ≡ (ok tt, s))
                × (force ≡ false)
                × (is_fresh s now ≡ true))
            ⊎ ((items : List Jwk) × Accepted response items
                × (0 < length (collect_keys decode items []))
                × (refresh decode force now done response s ≡ (
                  ok tt,
                  record s { keys = collect_keys decode items []; fetched_at = some done },
                )))
      by_response (err e) q busy = inl (e, rw (busy, q))
      by_response (ok keys) q busy =
          let (items, a, ks, some_key) = fetch_keys-ok response keys q in
          inr (inr (items, a, rw (← ks) some_key, rw (busy, q, ks)))

  offered :
      (items : List Jwk) (kid : String) (k : Key)
      → Offered decode items kid k ⊎ (lookup {V = Key} kid [] ≡ some k)
      → Offered decode items kid k
  offered items kid k (inl o) = o
  offered items kid k (inr e) = no_key kid k e

  -- Where a key that verifies a token comes from: it is either held, in a set that was read less
  -- than the time to live ago, or offered, as an Ed25519 signing key of 32 bytes under the token's
  -- id, by the document that the key server has just returned.
  pub key_trusted :
      (now done : ℕ) (response : Response (List Jwk)) (kid : String) (s s' : KeyStore) (k : Key)
      → key decode now done response kid s ≡ (ok k, s')
      → ((s' ≡ s) × (is_fresh s now ≡ true) × (lookup kid s.keys ≡ some k))
        ⊎ ((items : List Jwk) × Accepted response items
            × Offered decode items kid k
            × (s'.fetched_at ≡ some done))
  unfolding key
  key_trusted now done response kid s s' k h =
      elim (Bool-cases (is_known (lookup kid s.keys) && is_fresh s now)) [
        | inl held ↦
            let h' : (found_key kid s, s) ≡ (ok k, s') = rw held at h in
            inl (ground arith, ground arith, found_key-ok kid s k (ground arith))
        | inr stale ↦
            let h' : after_refresh kid
                  (refresh decode (not (is_known (lookup kid s.keys))) now done response s)
                ≡ (ok k, s') =
              rw stale at h in
            elim (refresh_outcomes (not (is_known (lookup kid s.keys))) now done response s) [
              | inl (e, r) ↦ after_err kid e s s' k (rw r at h')
              | inr (inl (r, calm, fresh)) ↦ absurd (known_fresh kid s now stale calm fresh)
              | inr (inr (items, a, some_key, r)) ↦
                  let (f, same) = after_ok kid _ s' k (rw r at h') in
                  let m = found_key-ok kid _ k f in
                  inr (
                    items,
                    a,
                    offered items kid k (collect_keys-Offered decode items [] kid k m),
                    ap (λ (t : KeyStore). t.fetched_at) (sym same),
                  )
            ]
      ]
