-- ===== src/Access/Canonical.antt =====
-- What a publication of model access says once snapshot.go and workload_entitlement.go accept it.
use agent_enterprise_protoco.Common.{
  ℕ, ◌≤◌, String, ◌≡◌, refl, sym, ap, ◌∙◌, ◌≢◌, ◌⊎◌, inl, inr, true, false, not, ◌||◌, Option, none,
  some, List, [], ◌∷◌, arith, eq_iff, ltb, if◌then◌else◌, Bool-cases, Option-cases, length, filter,
  all, ◌==◌, nat_eq, string_eq, beq_refl,
}
use agent_enterprise_protoco.Common.Results.{Result, ok, err, refuse_if-ok, >>=-eq-ok}
use Prim.Native.String.{len}
use agent_enterprise_protoco.Common.Text.{str_lt}
use agent_enterprise_protoco.Access.Snapshot.{
  Snapshot, License, WorkloadEntitlement, is_sorted, are_distinct, canonical_ids, is_model_id,
  is_zero_time, select_license, selected_workload_license, is_absent, is_valid_binding,
  has_valid_sets, is_valid_with, is_valid_snapshot, SnapshotError, invalid_snapshot, max_payload,
  canonical, compare_with, decode,
}

-- Sorted, each id once.
abbrev pub IsAscending : List String → Type 0
IsAscending [] = Unit
IsAscending (a ∷ []) = Unit
IsAscending (a ∷ b ∷ ids) = (str_lt b a ≡ false) × (a ≢ b) × IsAscending (b ∷ ids)

distinct-IsAscending :
    (max_length : ℕ) (a : String) (ids : List String)
    → is_sorted (a ∷ ids) ≡ true
    → are_distinct max_length (some a) ids ≡ true
    → IsAscending (a ∷ ids)
unfolding is_sorted are_distinct
distinct-IsAscending max_length a [] h k = tt
distinct-IsAscending max_length a (b ∷ ids) h k = (
  ground arith,
  λ e. ground (arith, (eq_iff b a).1 (sym e)),
  distinct-IsAscending max_length b ids (ground arith) (ground arith),
)

canonical_ids-IsAscending :
    (ids : List String) (max_count max_length : ℕ)
    → canonical_ids ids max_count max_length ≡ true
    → IsAscending ids × (length ids ≤ max_count)
unfolding canonical_ids
canonical_ids-IsAscending [] max_count max_length h = (tt, omega arith)
canonical_ids-IsAscending (a ∷ ids) max_count max_length h = (
  distinct-IsAscending max_length a ids (ground arith) (unfold are_distinct in ground arith),
  ground arith,
)

-- What a valid snapshot grants.
pub record IsGrant (s : Snapshot) : Type 0 where
  pub models : List String
  pub models_listed : s.models ≡ some models
  pub models_ascending : IsAscending models
  pub models_few : length models ≤ 512
  pub models_named : all is_model_id models ≡ true
  pub roles_ascending : IsAscending s.role_ids
  pub teams_ascending : IsAscending s.team_ids
  pub disabled_empty : (s.disabled ≡ false) ⊎ (models ≡ [])
  pub retired_disabled : (s.retired ≡ false) ⊎ (s.disabled ≡ true)
  pub bound :
      ((s.binding.kind ≡ "session") × (s.binding.workload ≡ none))
      ⊎ ((s.binding.kind ≡ "kubernetes") × (s.subject.kind ≡ "agent"))

absent-eq : {A : Type 0} (o : Option A) → is_absent o ≡ true → o ≡ none
absent-eq none h = refl
absent-eq (some a) h = cc

no_models : (models : List String) → (length models == 0) ≡ true → models ≡ []
no_models [] h = refl
no_models (m ∷ models) h = ground arith

sets-parts :
    (s : Snapshot) (models : List String)
    → has_valid_sets s models ≡ true
    → (canonical_ids models 512 40 ≡ true)
      × (canonical_ids s.role_ids 256 256 ≡ true)
      × (canonical_ids s.team_ids 256 256 ≡ true)
      × ((s.disabled ≡ false) ⊎ ((length models == 0) ≡ true))
      × ((s.retired ≡ false) ⊎ (s.disabled ≡ true))
unfolding has_valid_sets
sets-parts s models h = (ground arith, ground arith, ground arith, ground arith, ground arith)

binding-parts :
    (s : Snapshot)
    → is_valid_binding s ≡ true
    → ((s.binding.kind ≡ "session") × (is_absent s.binding.workload ≡ true))
      ⊎ ((s.binding.kind ≡ "kubernetes") × (s.subject.kind ≡ "agent"))
unfolding is_valid_binding
binding-parts s h = ground (
  arith,
  eq_iff s.binding.kind "session",
  eq_iff s.binding.kind "kubernetes",
  eq_iff s.subject.kind "agent",
)

valid_with-parts :
    (s : Snapshot) (models : List String)
    → is_valid_with s models ≡ true
    → (has_valid_sets s models ≡ true)
      × (all is_model_id models ≡ true)
      × (is_valid_binding s ≡ true)
unfolding is_valid_with
valid_with-parts s models h = (ground arith, ground arith, ground arith)

valid_with-IsGrant :
    (s : Snapshot) (models : List String)
    → s.models ≡ some models
    → is_valid_with s models ≡ true
    → IsGrant s
valid_with-IsGrant s models e h =
    let (sets, named, binding) = valid_with-parts s models h in
    let (m, r, t, disabled, retired) = sets-parts s models sets in
    let (ascending, few) = canonical_ids-IsAscending models 512 40 m in
    record {
      models = models;
      models_listed = e;
      models_ascending = ascending;
      models_few = few;
      models_named = named;
      roles_ascending = (canonical_ids-IsAscending s.role_ids 256 256 r).0;
      teams_ascending = (canonical_ids-IsAscending s.team_ids 256 256 t).0;
      disabled_empty = elim disabled [ inl f ↦ inl f | inr z ↦ inr (no_models models z) ];
      retired_disabled = retired;
      bound = elim (binding-parts s binding) [
        | inl (k, absent) ↦ inl (k, absent-eq s.binding.workload absent)
        | inr agent ↦ inr agent
      ];
    }

valid_snapshot-eq :
    (s : Snapshot)
    → is_valid_snapshot s ≡ true
    → (models : List String) × (s.models ≡ some models) × (is_valid_with s models ≡ true)
unfolding is_valid_snapshot
valid_snapshot-eq s h = elim (Option-cases s.models) [
  | inl e ↦ absurd (off (sym (rw (is_valid_snapshot, e) at h)))
  | inr (models, e) ↦ (models, e, ground (arith, e))
]
  where
    off : true ≡ false → ⊥
    off q = cc

module _ (marshal : Snapshot → String) (unmarshal : String → Option Snapshot)
    (hex_sha256 : String → String) where
  canonical-valid :
      (s : Snapshot) (written : String × String)
      → canonical marshal unmarshal hex_sha256 s ≡ ok written
      → is_valid_snapshot s ≡ true
  unfolding canonical
  canonical-valid s written h = ground arith

  written_bytes :
      (s : Snapshot) (payload content_hash : String)
      → canonical marshal unmarshal hex_sha256 s ≡ ok (payload, content_hash)
      → payload ≡ marshal s
  unfolding canonical
  written_bytes s payload content_hash h = elim (Bool-cases (not (is_valid_snapshot s))) [
    | inl bad ↦
        let h' : Path (Result SnapshotError (String × String)) (err invalid_snapshot)
            (ok (payload, content_hash)) =
          rw bad at h in
        cc
    | inr good ↦
        let h' : Path (Result SnapshotError (String × String))
            (ok (marshal s, hex_sha256 (marshal s))) (ok (payload, content_hash)) =
          rw good at h in
        let pair : (marshal s, hex_sha256 (marshal s)) ≡ (payload, content_hash) = cc in
        sym (ap (λ (x : String × String). x.0) pair)
  ]

  compare_with-ok :
      (payload content_hash : String) (found s : Snapshot)
      → compare_with marshal unmarshal hex_sha256 payload content_hash found ≡ ok s
      → (found ≡ s) × (canonical marshal unmarshal hex_sha256 found ≡ ok (payload, content_hash))
  unfolding compare_with
  compare_with-ok payload content_hash found s h =
      let (written, made, h₁) = >>=-eq-ok (canonical marshal unmarshal hex_sha256 found) _ h in
      let (same, h₂) =
        refuse_if-ok (not (written.1 == content_hash) || not (written.0 == payload))
          invalid_snapshot _ h₁ in
      let hash : written.1 ≡ content_hash = ground (arith, eq_iff written.1 content_hash) in
      let bytes : written.0 ≡ payload = ground (arith, eq_iff written.0 payload) in
      (cc, made ∙ ap ok (cc (hash, bytes)))

  -- A payload that is accepted has at most 1 MiB and is, byte by byte and with its hash, the
  -- canonical form of the snapshot that it is decoded to; and that snapshot grants its models in
  -- order and each once, under well-formed names, none to a disabled subject, with a retired one
  -- disabled, to a session or to an agent's workload.
  pub decode-IsGrant :
      (payload content_hash : String) (s : Snapshot)
      → decode marshal unmarshal hex_sha256 payload content_hash ≡ ok s
      → (len payload ≤ max_payload)
        × (canonical marshal unmarshal hex_sha256 s ≡ ok (payload, content_hash))
        × IsGrant s
  unfolding decode
  decode-IsGrant payload content_hash s h = elim (Option-cases (unmarshal payload)) [
    | inl e ↦ absurd (refused (ground (arith, e)))
    | inr (found, e) ↦
        let (same, made) = compare_with-ok payload content_hash found s (ground (arith, e)) in
        let made' : canonical marshal unmarshal hex_sha256 s ≡ ok (payload, content_hash) =
          ap (canonical marshal unmarshal hex_sha256) (sym same) ∙ made in
        let (models, listed, valid) =
          valid_snapshot-eq s (canonical-valid s (payload, content_hash) made') in
        (ground arith, made', valid_with-IsGrant s models listed valid)
  ]
    where
      refused : Path (Result SnapshotError Snapshot) (err invalid_snapshot) (ok s) → ⊥
      refused q = cc

  -- What is published is read back, for a codec that reads what it has written, up to 1 MiB.
  pub canonical-decode :
      (payload content_hash : String) (s : Snapshot)
      → unmarshal (marshal s) ≡ some s
      → canonical marshal unmarshal hex_sha256 s ≡ ok (payload, content_hash)
      → len payload ≤ max_payload
      → decode marshal unmarshal hex_sha256 payload content_hash ≡ ok s
  unfolding decode compare_with
  canonical-decode payload content_hash s reads made small =
      let bytes : payload ≡ marshal s = written_bytes s payload content_hash made in
      let found : unmarshal payload ≡ some s = ap unmarshal bytes ∙ reads in
      let fits : ltb max_payload (len payload) ≡ false = ground (arith, small) in
      rw (decode, fits, found, made, beq_refl content_hash, beq_refl payload) refl

-- The licences that a workload's entitlement names.
abbrev pub named : WorkloadEntitlement → List License → List License
named e licenses = filter (λ license. license.id == e.license_id) licenses

select_more :
    (e : WorkloadEntitlement) (selected : License) (licenses : List License)
    (found : Option License)
    → select_license e (some selected) licenses ≡ some found
    → (found ≡ some selected) × (named e licenses ≡ [])
unfolding select_license
select_more e selected [] found h = (cc, refl)
select_more e selected (license ∷ licenses) found h =
    elim (Bool-cases (license.id == e.license_id)) [
      | inl same ↦ absurd (refused (rw same at h))
      | inr other ↦
          let (kept, none_named) = select_more e selected licenses found (rw other at h) in
          (kept, rw other none_named)
    ]
  where
    refused : Path (Option (Option License)) none (some found) → ⊥
    refused q = cc

select_first :
    (e : WorkloadEntitlement) (licenses : List License) (found : Option License)
    → select_license e none licenses ≡ some found
    → (license : License) × (found ≡ some license)
      × (named e licenses ≡ license ∷ [])
      × (license.digest ≡ e.license_digest)
      × (is_zero_time license.valid_until ≡ false)
unfolding select_license
select_first e [] found h = cc
select_first e (license ∷ licenses) found h = elim (Bool-cases (license.id == e.license_id)) [
  | inr other ↦
      let (l, kept, once, digest, time) = select_first e licenses found (rw other at h) in
      (l, kept, rw other once, digest, time)
  | inl same ↦
      let (fits, rest) = accepted (rw same at h) in
      let (kept, none_named) = select_more e license licenses found rest in
      (
        license,
        kept,
        rw same (ap (λ ls. license ∷ ls) none_named),
        ground (arith, eq_iff license.digest e.license_digest),
        ground arith,
      )
]
  where
    accepted :
        (if not (license.digest == e.license_digest) || is_zero_time license.valid_until
            then none
            else select_license e (some license) licenses)
          ≡ some found
        → ((not (license.digest == e.license_digest) || is_zero_time license.valid_until) ≡ false)
          × (select_license e (some license) licenses ≡ some found)
    accepted q = (ground arith, ground arith)

-- An entitlement selects one licence: where it is accepted, it is of a Kubernetes workload for the
-- models, exactly one licence of the publication has the id that it names, and that one has the
-- digest that it names and no zero end.
pub selected_workload_license_unique :
    (kind : String) (e : WorkloadEntitlement) (licenses : List License) (found : Option License)
    → selected_workload_license kind (some e) licenses ≡ some found
    → (license : License) × (found ≡ some license)
      × (kind ≡ "kubernetes")
      × (e.feature ≡ "enterprise.models")
      × (named e licenses ≡ license ∷ [])
      × (license.digest ≡ e.license_digest)
      × (is_zero_time license.valid_until ≡ false)
unfolding selected_workload_license
selected_workload_license_unique kind e licenses found h =
    let (license, kept, once, digest, time) = select_first e licenses found (ground arith) in
    (
      license,
      kept,
      ground (arith, eq_iff kind "kubernetes"),
      ground (arith, eq_iff e.feature "enterprise.models"),
      once,
      digest,
      time,
    )
