-- ===== src/Authorizer/Forwarding.antt =====
-- What the header that the last part of `ServeHTTP` of handler.go forwards says under each name.
use agent_enterprise_protoco.Common.{
  String, ◌≡◌, refl, sym, ap, ◌∙◌, ◌⊎◌, inl, inr, true, false, ◌||◌, Option, none, some, List, [],
  ◌∷◌, arith, eq_iff, if◌then◌else◌, Bool-cases, All, ◌==◌, nat_eq, string_eq, beq_comm,
}
use agent_enterprise_protoco.Common.Maps.{lookup}
use agent_enterprise_protoco.Common.Text.{to_lower}
use agent_enterprise_protoco.Authorizer.Http.{
  Header, canonical, del, set_trusted_header, is_aep_name, remove_untrusted_aep_headers,
  lookup-set_trusted_header, lookup-del, lookup-remove,
}
use agent_enterprise_protoco.Authorizer.Trust.{
  Established, set_all, clean, set_memberships, set_subject, forward_headers,
}

-- Every policy header is one that clients are kept from.
abbrev pub ArePolicyNames : List (String × String) → Type 0
ArePolicyNames = All (λ p. is_aep_name (canonical p.0) ≡ true)

-- The value a list of assignments leaves behind, the last one that names `n`.
unfoldable pub assigned :
    String → List (String × String) → Option (List String) → Option (List String)
assigned n [] v = v
assigned n ((name, value) ∷ headers) v =
    assigned n headers (if canonical name == n then some (value ∷ []) else v)

lookup-set_all :
    (n : String) (headers : List (String × String)) (h : Header)
    → lookup n (set_all headers h) ≡ assigned n headers (lookup n h)
unfolding set_all assigned
lookup-set_all n [] h = refl
lookup-set_all n ((name, value) ∷ headers) h =
    lookup-set_all n headers (set_trusted_header h name value)
    ∙ ap (assigned n headers) (lookup-set_trusted_header h name n value)

-- The header names that the code writes, in the form that a header holds them.
canonical_names :
    (canonical "Authorization" ≡ "Authorization")
    × (canonical "Connection" ≡ "Connection")
    × (canonical "Proxy-Connection" ≡ "Proxy-Connection")
    × (canonical "X-Mse-Consumer" ≡ "X-Mse-Consumer")
    × (canonical "X-AEP-Request-ID" ≡ "X-Aep-Request-Id")
    × (canonical "X-AEP-Team-IDs" ≡ "X-Aep-Team-Ids")
    × (canonical "X-AEP-Role-IDs" ≡ "X-Aep-Role-Ids")
    × (canonical "X-AEP-Deployment-ID" ≡ "X-Aep-Deployment-Id")
    × (canonical "X-AEP-User-ID" ≡ "X-Aep-User-Id")
    × (canonical "X-AEP-Session-ID" ≡ "X-Aep-Session-Id")
    × (canonical "X-AEP-Model-ID" ≡ "X-Aep-Model-Id")
unfolding canonical
canonical_names = (refl, refl, refl, refl, refl, refl, refl, refl, refl, refl, refl)

module _ (n : String) where
  -- The client's header shows through `clean` only at names that are not protected.
  unfoldable cleaned : Established → Option (List String) → Option (List String)
  cleaned e v =
      if n == "X-Mse-Consumer" || n == "Connection" || n == "Proxy-Connection"
      then none
      else if n == "X-Aep-Request-Id"
      then some (e.request_id ∷ [])
      else if is_aep_name n || n == "Authorization"
      then none
      else v

  lookup-clean : (e : Established) (h : Header) → lookup n (clean e h) ≡ cleaned e (lookup n h)
  unfolding clean cleaned
  lookup-clean e h =
      let h₁ = del h "Authorization" in
      let h₂ = remove_untrusted_aep_headers h₁ in
      let h₃ = set_trusted_header h₂ "X-AEP-Request-ID" e.request_id in
      let h₄ = del h₃ "Connection" in
      let h₅ = del h₄ "Proxy-Connection" in
      rw
        (
          lookup-del h₅ "X-Mse-Consumer" n,
          lookup-del h₄ "Proxy-Connection" n,
          lookup-del h₃ "Connection" n,
          lookup-set_trusted_header h₂ "X-AEP-Request-ID" n e.request_id,
          lookup-remove h₁ n,
          lookup-del h "Authorization" n,
          canonical_names.0,
          canonical_names.1,
          canonical_names.2,
          canonical_names.3,
          canonical_names.4,
          beq_comm "X-Mse-Consumer" n,
          beq_comm "Connection" n,
          beq_comm "Proxy-Connection" n,
          beq_comm "X-Aep-Request-Id" n,
          beq_comm "Authorization" n,
        )
        (ground arith)

-- What each header name has once the gateway has set everything, from what it had before.
unfoldable pub settled : String → Established → Option (List String) → Option (List String)
settled n e v =
    if n == "X-Aep-Model-Id"
    then some (e.model_id ∷ [])
    else if n == "X-Aep-Session-Id"
    then some (e.session_id ∷ [])
    else if n == "X-Aep-User-Id"
    then some (e.user_id ∷ [])
    else if n == "X-Aep-Deployment-Id"
    then some (e.deployment_id ∷ [])
    else v

unfoldable pub with_memberships : String → Established → Option (List String) → Option (List String)
with_memberships n e v =
    if n == "X-Aep-Role-Ids"
    then some (e.role_ids ∷ [])
    else if n == "X-Aep-Team-Ids"
    then some (e.team_ids ∷ [])
    else if n == "X-Mse-Consumer"
    then some (e.consumer ∷ [])
    else v

lookup-set_subject :
    (n : String) (e : Established) (h : Header)
    → lookup n (set_subject e h) ≡ settled n e (lookup n h)
unfolding set_subject settled
lookup-set_subject n e h =
    let h₁ = set_trusted_header h "X-AEP-Deployment-ID" e.deployment_id in
    let h₂ = set_trusted_header h₁ "X-AEP-User-ID" e.user_id in
    let h₃ = set_trusted_header h₂ "X-AEP-Session-ID" e.session_id in
    rw
      (
        lookup-set_trusted_header h₃ "X-AEP-Model-ID" n e.model_id,
        lookup-set_trusted_header h₂ "X-AEP-Session-ID" n e.session_id,
        lookup-set_trusted_header h₁ "X-AEP-User-ID" n e.user_id,
        lookup-set_trusted_header h "X-AEP-Deployment-ID" n e.deployment_id,
        canonical_names.7,
        canonical_names.8,
        canonical_names.9,
        canonical_names.10,
        beq_comm "X-Aep-Model-Id" n,
        beq_comm "X-Aep-Session-Id" n,
        beq_comm "X-Aep-User-Id" n,
        beq_comm "X-Aep-Deployment-Id" n,
      )
      refl

lookup-set_memberships :
    (n : String) (e : Established) (h : Header)
    → lookup n (set_memberships e h) ≡ with_memberships n e (lookup n h)
unfolding set_memberships with_memberships
lookup-set_memberships n e h =
    let h₁ = set_trusted_header h "X-Mse-Consumer" e.consumer in
    let h₂ = set_trusted_header h₁ "X-AEP-Team-IDs" e.team_ids in
    rw
      (
        lookup-set_trusted_header h₂ "X-AEP-Role-IDs" n e.role_ids,
        lookup-set_trusted_header h₁ "X-AEP-Team-IDs" n e.team_ids,
        lookup-set_trusted_header h "X-Mse-Consumer" n e.consumer,
        canonical_names.3,
        canonical_names.5,
        canonical_names.6,
        beq_comm "X-Aep-Role-Ids" n,
        beq_comm "X-Aep-Team-Ids" n,
        beq_comm "X-Mse-Consumer" n,
      )
      refl

lookup-forward :
    (n : String) (e : Established) (h : Header)
    → lookup n (forward_headers e h)
      ≡ settled n e (assigned n e.policy_headers (with_memberships n e (cleaned n e (lookup n h))))
unfolding forward_headers
lookup-forward n e h =
    rw
      (
        lookup-set_subject n e (set_all e.policy_headers (set_memberships e (clean e h))),
        lookup-set_all n e.policy_headers (set_memberships e (clean e h)),
        lookup-set_memberships n e (clean e h),
        lookup-clean n e h,
      )
      refl

-- A name that only the gateway may give a value to.
abbrev pub IsProtected : String → Type 0
IsProtected n =
    (is_aep_name n ≡ true)
    ⊎ (n ≡ "X-Mse-Consumer")
    ⊎ (n ≡ "Authorization")
    ⊎ (n ≡ "Connection")
    ⊎ (n ≡ "Proxy-Connection")

assigned-ArePolicyNames :
    (n : String) (headers : List (String × String)) (v : Option (List String))
    → ArePolicyNames headers
    → is_aep_name n ≡ false
    → assigned n headers v ≡ v
unfolding assigned
assigned-ArePolicyNames n [] v p other = refl
assigned-ArePolicyNames n ((name, value) ∷ headers) v (p, ps) other =
    elim (Bool-cases (canonical name == n)) [
      | inl same ↦
          let clash : true ≡ false =
            sym p ∙ ap is_aep_name ((eq_iff (canonical name) n).0 same) ∙ other in
          cc
      | inr differs ↦ rw differs (assigned-ArePolicyNames n headers v ps other)
    ]

-- Whatever the client sends and whatever policy headers there are, the deployment, the user, the
-- session and the model that are forwarded are the established ones.
pub forward_subject :
    (e : Established) (h : Header)
    → (lookup "X-Aep-Deployment-Id" (forward_headers e h) ≡ some (e.deployment_id ∷ []))
      × (lookup "X-Aep-User-Id" (forward_headers e h) ≡ some (e.user_id ∷ []))
      × (lookup "X-Aep-Session-Id" (forward_headers e h) ≡ some (e.session_id ∷ []))
      × (lookup "X-Aep-Model-Id" (forward_headers e h) ≡ some (e.model_id ∷ []))
unfolding settled
forward_subject e h = (
  lookup-forward "X-Aep-Deployment-Id" e h,
  lookup-forward "X-Aep-User-Id" e h,
  lookup-forward "X-Aep-Session-Id" e h,
  lookup-forward "X-Aep-Model-Id" e h,
)

-- What becomes of a name outside AEP's.
unfoldable pub passed : String → Established → Option (List String) → Option (List String)
passed n e v =
    if n == "X-Mse-Consumer"
    then some (e.consumer ∷ [])
    else if n == "Authorization" || n == "Connection" || n == "Proxy-Connection"
    then none
    else v

apart : (n name : String) → is_aep_name name ≡ true → is_aep_name n ≡ false → (n == name) ≡ false
apart n name p other = elim (Bool-cases (n == name)) [
  | inl same ↦
      let clash : true ≡ false = sym p ∙ ap is_aep_name (sym ((eq_iff n name).0 same)) ∙ other in cc
  | inr differs ↦ differs
]

-- With policy headers under AEP names only: the credentials and the connection options of the client
-- are gone, the consumer is the established one, and every other header outside the AEP names
-- passes unchanged.
pub forward_others :
    (n : String) (e : Established) (h : Header)
    → ArePolicyNames e.policy_headers
    → is_aep_name n ≡ false
    → lookup n (forward_headers e h) ≡ passed n e (lookup n h)
unfolding settled with_memberships cleaned passed is_aep_name to_lower
forward_others n e h policies other =
    lookup-forward n e h
    ∙ ap (settled n e) (assigned-ArePolicyNames n e.policy_headers _ policies other)
    ∙ rw
        (
          apart n "X-Aep-Model-Id" refl other,
          apart n "X-Aep-Session-Id" refl other,
          apart n "X-Aep-User-Id" refl other,
          apart n "X-Aep-Deployment-Id" refl other,
          apart n "X-Aep-Role-Ids" refl other,
          apart n "X-Aep-Team-Ids" refl other,
          apart n "X-Aep-Request-Id" refl other,
          other,
        )
        (ground arith)
