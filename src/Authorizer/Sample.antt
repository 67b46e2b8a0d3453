-- ===== src/Authorizer/Sample.antt =====
-- What the examples of the authorizer are made of: a token library for one token, keys, a licence
-- service, an identity and a request.
use agent_enterprise_protoco.Common.{
  ℕ, ◌<◌, String, ◌≡◌, refl, sym, ◌⊎◌, inl, inr, Bool, true, ◌&&◌, ◌||◌, Option, none, some, List,
  [], ◌∷◌, arith, eq_iff, ltb, if◌then◌else◌, Bool-cases, length, ◌==◌, nat_eq, string_eq, contains,
}
use agent_enterprise_protoco.Common.Results.{Result, ok, err}
use agent_enterprise_protoco.Authorizer.Claims.{ModelClaims, GatewayError}
use agent_enterprise_protoco.Authorizer.Http.{Header}
use agent_enterprise_protoco.Authorizer.Jwks
use agent_enterprise_protoco.Authorizer.Jwks.{Key, Jwk, KeyStore, Offered}
use agent_enterprise_protoco.Authorizer.Verifier.{Token, KeyFunction, Options, Parser}
use agent_enterprise_protoco.Authorizer.TokenTrust.{IsParser}
use agent_enterprise_protoco.Authorizer.Entitlement
use agent_enterprise_protoco.Authorizer.Entitlement.{
  StatusState, StatusDocument, StatusResponse, check_entitlement,
}
use agent_enterprise_protoco.Authorizer.Body.{RequestBody, json}
use agent_enterprise_protoco.Authorizer.Identity.{
  GatewayIdentity, IdentityResponse, identity, claimed_identity, consumer, membership_header, IsOwn,
  IsTimely, identity-IsOwn,
}
use agent_enterprise_protoco.Authorizer.Identity
use agent_enterprise_protoco.Authorizer.Handler.{Gateway, Request, Outcome, forwarded}
use agent_enterprise_protoco.Authorizer.Service.{World, VerifierState, serve}

-- A token library for one token.
abbrev pub claims : ModelClaims
claims = record {
  deployment_id = "d";
  session_id = "s";
  license_id = "l";
  license_digest = "x";
  features = [];
  model_scopes = "m" ∷ [];
  token_use = "entitlement";
  issuer = "aep";
  subject = "ann";
  audience = "aep-entitlement" ∷ [];
  expires_at = some 100;
  issued_at = none;
}

abbrev pub token : Token
token = record { alg = "EdDSA"; kid = "k" }

unfoldable pub admits : String → Options → ℕ → Bool
admits raw o now =
    raw == "good"
    && contains o.valid_methods "EdDSA"
    && contains o.audience "aep-entitlement"
    && (o.issuer == "" || o.issuer == "aep")
    && ltb now 100

unfoldable pub accepted : Result GatewayError Key × KeyStore → Option ModelClaims × KeyStore
accepted (err _, s) = (none, s)
accepted (ok k, s) = (if length k == 32 then some claims else none, s)

unfoldable pub parse : Parser
unfolding admits accepted
parse raw f o now s = if admits raw o now then accepted (f token s) else (none, s)

abbrev pub Signed : String → Key → Type 0
Signed raw k = (raw ≡ "good") × (length k ≡ 32)

accepted-eq :
    (r : Result GatewayError Key × KeyStore) (s' : KeyStore) (c : ModelClaims)
    → accepted r ≡ (some c, s')
    → (k : Key) × (r ≡ (ok k, s')) × (length k ≡ 32) × (claims ≡ c)
unfolding accepted
accepted-eq (err _, s) s' c h = cc
accepted-eq (ok k, s) s' c h = elim (Bool-cases (length k == 32)) [
  | inl sized ↦
      let h' : Path (Option ModelClaims × KeyStore) (some claims, s) (some c, s') = rw sized at h in
      (k, cc, ground arith, cc)
  | inr odd ↦
      let h' : Path (Option ModelClaims × KeyStore) (none, s) (some c, s') = rw odd at h in cc
]

parse-eq :
    (raw : String) (f : KeyFunction) (o : Options) (now : ℕ) (s s' : KeyStore) (c : ModelClaims)
    → parse raw f o now s ≡ (some c, s')
    → (admits raw o now ≡ true) × (accepted (f token s) ≡ (some c, s'))
unfolding parse
parse-eq raw f o now s s' c h = elim (Bool-cases (admits raw o now)) [
  | inl good ↦ (good, rw good at h)
  | inr bad ↦
      let h' : Path (Option ModelClaims × KeyStore) (none, s) (some c, s') = rw bad at h in cc
]

admits-eq :
    (raw : String) (o : Options) (now : ℕ)
    → admits raw o now ≡ true
    → (raw ≡ "good")
      × (contains o.valid_methods "EdDSA" ≡ true)
      × (contains o.audience "aep-entitlement" ≡ true)
      × ((o.issuer ≡ "") ⊎ (o.issuer ≡ "aep"))
      × (now < 100)
unfolding admits
admits-eq raw o now h = (
  ground (arith, eq_iff raw "good"),
  ground arith,
  ground arith,
  ground (arith, eq_iff o.issuer "", eq_iff o.issuer "aep"),
  ground arith,
)

pub parse-IsParser : IsParser Signed parse
parse-IsParser = record {
  sound = λ raw f o now s s' c h.
      let (admitted, taken) = parse-eq raw f o now s s' c h in
      let (good, method, audience, issuer, timely) = admits-eq raw o now admitted in
      let (k, given, sized, same) = accepted-eq (f token s) s' c taken in
      (
        token,
        k,
        given,
        (good, sized),
        method,
        rw (← same) ground arith,
        λ named. rw (← same) (elim issuer [ inl e ↦ absurd (named e) | inr e ↦ sym e ]),
        λ _. (100, rw (← same) refl, timely),
      );
}

-- The key server's document, and the state after it has been read at time 10.
abbrev pub key_bytes : Key
key_bytes =
    1 ∷ 2 ∷ 3 ∷ 4 ∷ 5 ∷ 6 ∷ 7 ∷ 8 ∷ 9 ∷ 10 ∷ 11 ∷ 12 ∷ 13 ∷ 14 ∷ 15 ∷ 16 ∷ 17 ∷ 18 ∷ 19 ∷ 20 ∷ 21
    ∷ 22 ∷ 23 ∷ 24 ∷ 25 ∷ 26 ∷ 27 ∷ 28 ∷ 29 ∷ 30 ∷ 31 ∷ 32 ∷ []

abbrev pub decode : String → Option Key
decode x = if x == "bytes" then some key_bytes else none

abbrev pub jwk : Jwk
jwk = record { kty = "OKP"; kid = "k"; use_as = "sig"; alg = "EdDSA"; crv = "Ed25519"; x = "bytes" }

abbrev pub key_response : Jwks.Response (List Jwk)
key_response = Jwks.reply 200 (Jwks.content 300 (some (jwk ∷ [])))

abbrev pub no_keys : KeyStore
no_keys = record { keys = []; fetched_at = none; ttl = 20 }

abbrev pub one_key : KeyStore
one_key = record { keys = ("k", key_bytes) ∷ []; fetched_at = some 10; ttl = 20 }

abbrev pub found_identity : GatewayIdentity
found_identity = record {
  deployment_id = "d";
  user_id = "ann";
  consumer = "aep.d.ann";
  roles = "lead" ∷ [];
  teams = "b" ∷ "a" ∷ "b" ∷ [];
  observed_at = 9;
}

abbrev pub statuses : StatusState
statuses = record {
  license_status_url = "u";
  license_status_token = "t";
  license_status_ttl = 5;
  status_cache = [];
}

abbrev pub active : StatusResponse
active = Entitlement.reply 200 (some (record { active = true; digest = "x"; deployment_id = "d" }))

abbrev pub answer : IdentityResponse
answer = Identity.reply 200 100 (some found_identity)

abbrev pub same : String → String
same s = s

abbrev pub gateway : Gateway
gateway = record { limit = 1000; require_entitlement = true; identity_url = "i" }

abbrev pub request : Request
request = record {
  method = "POST";
  path = "/v1/chat/completions";
  header =
      ("Authorization", "Bearer good" ∷ [])
      ∷ ("X-Aep-User-Id", "eve" ∷ [])
      ∷ ("Accept", "*" ∷ [])
      ∷ [];
  body = record { readable = true; size = 20; encoded = json (some "m") };
}

abbrev pub world : World
world = record {
  now = 10;
  fetched_at = 10;
  key_response = key_response;
  status_response = λ _ _. active;
  identity_response = λ _ _. answer;
  fresh_id = "r";
}

abbrev pub served : Outcome × VerifierState
served = serve decode parse "aep" world same same gateway request (no_keys, statuses)

unfoldable pub sent_by : Outcome → Header
sent_by (forwarded out _) = out
sent_by _ = []

unfoldable pub body_of : Outcome → Option RequestBody
body_of (forwarded _ body) = body
body_of _ = none

abbrev pub out : Header
out = sent_by served.0
