-- ===== src/Login/Source.antt =====
-- auth_security.go: `loginSource` and `addressInPrefixes`. Addresses are those of `net/netip`: the
-- parsers of it are parameters, and so is `trusted`, the test of an address against the configured
-- prefixes. The header `X-Forwarded-For` is given by its parts between the commas, from the left.
use agent_enterprise_protoco.Common.{
  String, ◌≡◌, refl, ap, inl, inr, Bool, true, false, not, Option, none, some, List, [], ◌∷◌, ◌++◌,
  if◌then◌else◌, Bool-cases, All, nat_eq, string_eq,
}
use agent_enterprise_protoco.Common.Text.{trim_space}

module _ {A : Type 0} (parse_remote_address parse_addr : String → Option A) (unmap : A → A)
    (trusted : A → Bool) where
  -- The loop over the chain, which stands here with its last part first.
  unfoldable pub walk_back : (peer leftmost : A) → List String → A
  walk_back peer leftmost [] = leftmost
  walk_back peer leftmost (part ∷ parts) = elim (parse_addr (trim_space part)) [
    | none ↦ peer
    | some parsed ↦
        let address = unmap parsed in
        let rest = walk_back peer address parts in if not (trusted address) then address else rest
  ]

  unfoldable pub forwarded_source : A → (chain : List String) → A
  forwarded_source peer [] = peer
  forwarded_source peer (part ∷ parts) = walk_back peer peer (part ∷ parts)

  -- `none` for "unknown". The chain has its last part first.
  unfoldable pub login_source : (remote_addr : String) → (chain : List String) → Option A
  login_source remote_addr chain = elim (parse_remote_address remote_addr) [
    | none ↦ none
    | some peer ↦ some (if not (trusted peer) then peer else forwarded_source peer chain)
  ]

  -- A part is an address of a trusted proxy.
  abbrev IsProxy : String → Type 0
  IsProxy part = (a : A) × (parse_addr (trim_space part) ≡ some a) × (trusted (unmap a) ≡ true)

  walk_back_stops :
      (peer leftmost client : A) (proxies : List String) (part : String) (rest : List String)
      → All IsProxy proxies
      → parse_addr (trim_space part) ≡ some client
      → trusted (unmap client) ≡ false
      → walk_back peer leftmost (proxies ++ part ∷ rest) ≡ unmap client
  unfolding walk_back
  walk_back_stops peer leftmost client [] part rest h e untrusted = rw (e, untrusted) refl
  walk_back_stops peer leftmost client (p ∷ proxies) part rest ((a, f, t), h) e untrusted =
      rw (f, t) (walk_back_stops peer (unmap a) client proxies part rest h e untrusted)

  forwarded_stops :
      (peer client : A) (proxies : List String) (part : String) (rest : List String)
      → All IsProxy proxies
      → parse_addr (trim_space part) ≡ some client
      → trusted (unmap client) ≡ false
      → forwarded_source peer (proxies ++ part ∷ rest) ≡ unmap client
  unfolding forwarded_source
  forwarded_stops peer client [] part rest h e untrusted =
      walk_back_stops peer peer client [] part rest h e untrusted
  forwarded_stops peer client (p ∷ proxies) part rest h e untrusted =
      walk_back_stops peer peer client (p ∷ proxies) part rest h e untrusted

  -- A client cannot choose its source. Directly connected, its header is not read; behind trusted
  -- proxies, each of which appends the address that it was called from, the source is the address
  -- that the first of them saw, if no proxy is trusted at it, whatever the client has written before
  -- it.
  pub login_source_unforgeable :
      (remote_addr : String) (peer client : A) (proxies : List String) (part : String)
      (forged : List String)
      → parse_remote_address remote_addr ≡ some peer
      → All IsProxy proxies
      → parse_addr (trim_space part) ≡ some client
      → trusted (unmap client) ≡ false
      → login_source remote_addr (proxies ++ part ∷ forged)
        ≡ some (if trusted peer then unmap client else peer)
  unfolding login_source
  login_source_unforgeable remote_addr peer client proxies part forged r h e untrusted =
      elim (Bool-cases (trusted peer)) [
        | inl proxy ↦
            rw (login_source, r, proxy)
              (ap some (forwarded_stops peer client proxies part forged h e untrusted))
        | inr direct ↦ rw (login_source, r, direct) refl
      ]
