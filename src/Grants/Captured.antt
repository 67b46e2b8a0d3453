-- ===== src/Grants/Captured.antt =====
-- What `QueueModelAccessPublication` of model_access_publications.go leaves behind when it succeeds.
use agent_enterprise_protoco.Common.{ℕ, ◌≤◌, ◌<◌, String, ◌≡◌, refl, sym, ap, ◌∙◌, ◌⊎◌, inl, inr, Bool, true, false, not, ◌&&◌, ◌||◌, Option, some, List, [], ◌∷◌, arith, eq_iff, ltb, leb, Bool-cases, Option-cases, any, All, ◌==◌, nat_eq, string_eq, In, In-any}
use agent_enterprise_protoco.Common.Results.{Result, ok, err}
use agent_enterprise_protoco.Publication.Tables.{update}
use agent_enterprise_protoco.Publication.Delivery.{complete}
use agent_enterprise_protoco.Publication.Queue.{new_row}
use agent_enterprise_protoco.Grants.Tables.{Stream, ModelAccessPublication, AccessTables}
use agent_enterprise_protoco.Grants.Queue.{
  CaptureError, invalid_input, stale, conflict, not_found, duplicate_key, ModelAccessIntent,
  validate_access_intent, has_binding, ensure_stream, find_stream, is_at, find_at, is_same,
  is_overtaken, superseded, is_given_up, is_refused, new_access, confirm_work, insert_access,
  capture_after, capture_stream, capture_intent, queue_access,
}
use agent_enterprise_protoco.Grants.Holder.{IsNewest}
use mathlib.Core.Path.{subst}
use agent_enterprise_protoco.Grants.Checked.{IsKeyedAccess, In-update}

-- The intent does not go behind a stream: it is another binding's, or its source version is no
-- older and the publication comes no earlier.
abbrev pub IsNotBehind : ModelAccessIntent → ModelAccessPublication → Stream → Type 0
IsNotBehind n v r =
    (has_binding n.binding_key r ≡ false)
    ⊎ ((r.last_source_version ≤ n.source_version) × (r.last_sequence ≤ v.sequence))

-- The publication stands for the intent, is the last of its stream, and the stream has the source
-- version of the intent.
pub record IsCaptured (n : ModelAccessIntent) (v : ModelAccessPublication) (t' : AccessTables)
    : Type 0 where
  pub publication_in : In v t'.publications
  pub binding : v.binding_key ≡ n.binding_key
  pub content : v.content_hash ≡ n.snapshot.content_hash
  pub validity : v.valid_until ≡ n.valid_until
  pub newest : IsNewest v t'
  pub stream_subject : newest.stream.subject_id ≡ n.subject_id
  pub stream_version : newest.stream.last_source_version ≡ n.source_version

-- What capturing adds about the stream that it found.
record IsAhead (n : ModelAccessIntent) (s : Stream) (v : ModelAccessPublication) (t' : AccessTables)
    : Type 0 where
  captured : IsCaptured n v t'
  version : s.last_source_version ≤ n.source_version
  sequence : s.last_sequence ≤ v.sequence

not_older : (v : ModelAccessPublication) → is_overtaken v.binding_key v.sequence v ≡ false
unfolding is_overtaken
not_older v = ground arith

inserted-In :
    (v : ModelAccessPublication) (ps : List ModelAccessPublication)
    → In v (update (is_overtaken v.binding_key v.sequence) superseded (v ∷ ps))
unfolding update
inserted-In v ps = rw (not_older v) (inl refl)

abbrev CaptureOutcome : Type 0
CaptureOutcome = Result CaptureError ModelAccessPublication × AccessTables

find_stream-In :
    (b : String) (ss : List Stream) (s : Stream)
    → find_stream b ss ≡ some s
    → In s ss × (has_binding b s ≡ true)
unfolding find_stream
find_stream-In b [] s h = cc
find_stream-In b (r ∷ ss) s h = elim (Bool-cases (has_binding b r)) [
  | inl hit ↦
      let h' : Path (Option Stream) (some r) (some s) = rw hit at h in
      let same : r ≡ s = cc in (inl same, sym (ap (has_binding b) same) ∙ hit)
  | inr miss ↦ let (i, e) = find_stream-In b ss s (rw miss at h) in (inr i, e)
]

find_at-In :
    (b : String) (sequence : ℕ) (ps : List ModelAccessPublication) (p : ModelAccessPublication)
    → find_at b sequence ps ≡ some p
    → In p ps × (is_at b sequence p ≡ true)
unfolding find_at
find_at-In b sequence [] p h = cc
find_at-In b sequence (q ∷ ps) p h = elim (Bool-cases (is_at b sequence q)) [
  | inl hit ↦
      let h' : Path (Option ModelAccessPublication) (some q) (some p) = rw hit at h in
      let same : q ≡ p = cc in (inl same, sym (ap (is_at b sequence) same) ∙ hit)
  | inr miss ↦ let (i, e) = find_at-In b sequence ps p (rw miss at h) in (inr i, e)
]

moved :
    (n : ModelAccessIntent) (s : Stream) (v v' : ModelAccessPublication) (t t' : AccessTables)
    → Path CaptureOutcome (ok v, t) (ok v', t')
    → IsAhead n s v t
    → IsAhead n s v' t'
moved n s v v' t t' h ahead =
    let same_value : v ≡ v' = cc in
    let same_tables : t ≡ t' = cc in
    subst (λ u. IsAhead n s v' u) same_tables (subst (λ x. IsAhead n s x t) same_value ahead)

module _ (now : ℕ) (deployment_id id : String) (n : ModelAccessIntent) where
  module _ (s : Stream) (before t t' : AccessTables) (v : ModelAccessPublication)
      (s_in : In s t.streams) (s_binding : has_binding n.binding_key s ≡ true)
      (s_subject : (s.subject_id == n.subject_id) ≡ true)
      (s_version : ltb n.source_version s.last_source_version ≡ false) where
    insert_access-IsAhead :
        insert_access now deployment_id id n before s t ≡ (ok v, t') → IsAhead n s v t'
    unfolding insert_access new_access
    insert_access-IsAhead h =
        let v0 = new_access now deployment_id id n s in
        let ps =
          update (is_overtaken v0.binding_key v0.sequence) superseded (v0 ∷ t.publications) in
        let change : Stream → Stream =
          λ r. record r { last_source_version = n.source_version; last_sequence = v0.sequence } in
        let t1 : AccessTables = record {
          streams = update (has_binding n.binding_key) change t.streams;
          publications = ps;
          outbox =
              update (is_given_up v0.binding_key ps) (complete now) (new_row now id ∷ t.outbox);
        } in
        let stream_key : s.binding_key ≡ n.binding_key =
          (eq_iff s.binding_key n.binding_key).0 s_binding in
        let newest : IsNewest v0 t1 = record {
          stream = change s;
          stream_in = In-update (has_binding n.binding_key) change s t.streams s_in s_binding;
          stream_binding = stream_key;
          stream_sequence = refl;
        } in
        let ahead : IsAhead n s v0 t1 = record {
          captured = record {
            publication_in = inserted-In v0 t.publications;
            binding = refl;
            content = refl;
            validity = refl;
            newest = newest;
            stream_subject = (eq_iff s.subject_id n.subject_id).0 s_subject;
            stream_version = refl;
          };
          version = ground arith;
          sequence = omega arith;
        } in
        elim (Bool-cases (is_refused v0 t)) [
          | inl twice ↦
              let h' : Path CaptureOutcome (err duplicate_key, before) (ok v, t') = rw twice at h in
              cc
          | inr fresh ↦
              let h' : Path CaptureOutcome (ok v0, t1) (ok v, t') = rw fresh at h in
              moved n s v0 v t1 t' h' ahead
        ]

    confirm_work-IsAhead :
        (p : ModelAccessPublication)
        → In p t.publications
        → is_at n.binding_key s.last_sequence p ≡ true
        → is_same n p ≡ true
        → confirm_work now deployment_id id n p t ≡ (ok v, t')
        → IsAhead n s v t'
    unfolding confirm_work is_same is_at
    confirm_work-IsAhead p i at_last same h =
        let s' : Stream = record s { last_source_version = n.source_version } in
        let t1 : AccessTables = record t {
          streams =
              update (has_binding n.binding_key)
                (λ r. record r { last_source_version = n.source_version }) t.streams;
        } in
        let key : p.binding_key ≡ n.binding_key =
          ground (arith, eq_iff p.binding_key n.binding_key) in
        let stream_key : s.binding_key ≡ n.binding_key =
          (eq_iff s.binding_key n.binding_key).0 s_binding in
        let sequence : p.sequence ≡ s.last_sequence = ground arith in
        let newest : IsNewest p t1 = record {
          stream = s';
          stream_in =
              In-update (has_binding n.binding_key)
                (λ r. record r { last_source_version = n.source_version }) s t.streams s_in
                s_binding;
          stream_binding = stream_key ∙ sym key;
          stream_sequence = sym sequence;
        } in
        moved n s p v t1 t' h (record {
          captured = record {
            publication_in = i;
            binding = key;
            content = ground (arith, eq_iff p.content_hash n.snapshot.content_hash);
            validity = ground arith;
            newest = newest;
            stream_subject = (eq_iff s.subject_id n.subject_id).0 s_subject;
            stream_version = refl;
          };
          version = ground arith;
          sequence = omega (arith, sequence);
        })

    capture_after-IsAhead :
        (p : ModelAccessPublication)
        → In p t.publications
        → is_at n.binding_key s.last_sequence p ≡ true
        → capture_after now deployment_id id n before s t p ≡ (ok v, t')
        → IsAhead n s v t'
    unfolding capture_after
    capture_after-IsAhead p i at_last h =
        let clash = n.source_version == s.last_source_version && not (is_same n p) in
        let unchanged =
          is_same n p && (not (p.phase == "failed") || n.source_version == s.last_source_version) in
        elim (Bool-cases clash) [
          | inl bad ↦
              let h' : Path CaptureOutcome (err conflict, before) (ok v, t') =
                rw (capture_after, bad) at h in
              cc
          | inr good ↦ elim (Bool-cases unchanged) [
            | inl same ↦
                confirm_work-IsAhead p i at_last (ground (arith, same))
                  (rw (capture_after, good, same) at h)
            | inr new ↦ insert_access-IsAhead (rw (capture_after, good, new) at h)
          ]
        ]

  module _ (s : Stream) (before t t' : AccessTables) (v : ModelAccessPublication)
      (s_in : In s t.streams) (s_binding : has_binding n.binding_key s ≡ true) where
    capture_stream-IsAhead :
        capture_stream now deployment_id id n before s t ≡ (ok v, t') → IsAhead n s v t'
    unfolding capture_stream capture_after
    capture_stream-IsAhead h = elim (Bool-cases (s.subject_id == n.subject_id)) [
      | inr other ↦
          let h' : Path CaptureOutcome (err conflict, before) (ok v, t') =
            rw (capture_stream, other) at h in
          cc
      | inl s_subject ↦ elim (Bool-cases (ltb n.source_version s.last_source_version)) [
        | inl old ↦
            let h' : Path CaptureOutcome (err stale, before) (ok v, t') =
              rw (capture_stream, s_subject, old) at h in
            cc
        | inr s_version ↦ elim (Bool-cases (s.last_sequence == 0)) [
          | inl first ↦
              insert_access-IsAhead s before t t' v s_in s_binding s_subject s_version
                (rw (capture_stream, s_subject, s_version, first) at h)
          | inr later ↦ elim (Option-cases (find_at n.binding_key s.last_sequence t.publications)) [
            | inl e ↦
                let h' : Path CaptureOutcome (err not_found, before) (ok v, t') =
                  rw (capture_stream, s_subject, s_version, later, e) at h in
                cc
            | inr (p, e) ↦
                let h1 : capture_after now deployment_id id n before s t p ≡ (ok v, t') =
                  rw (capture_stream, s_subject, s_version, later, e) at h in
                let (i, at_last) = find_at-In n.binding_key s.last_sequence t.publications p e in
                capture_after-IsAhead s before t t' v s_in s_binding s_subject s_version p i at_last
                  h1
          ]
        ]
      ]
    ]

All-from : (P : Stream → Type 0) (ss : List Stream) → ((r : Stream) → In r ss → P r) → All P ss
All-from P [] f = tt
All-from P (s ∷ ss) f = (f s (inl refl), All-from P ss (λ r i. f r (inr i)))

-- The stream that is found is the only one of the binding that was there.
all-IsNotBehind :
    (n : ModelAccessIntent) (t : AccessTables) (s : Stream) (v : ModelAccessPublication)
    → IsKeyedAccess t
    → In s (ensure_stream n t.streams)
    → has_binding n.binding_key s ≡ true
    → s.last_source_version ≤ n.source_version
    → s.last_sequence ≤ v.sequence
    → All (IsNotBehind n v) t.streams
unfolding ensure_stream
all-IsNotBehind n t s v keyed i b version sequence =
    elim (Bool-cases (any (has_binding n.binding_key) t.streams)) [
      | inr none_there ↦ All-from (IsNotBehind n v) t.streams (λ r j.
          elim (Bool-cases (has_binding n.binding_key r)) [
            | inl hit ↦
                let there = In-any (has_binding n.binding_key) r t.streams j hit in
                absurd (ground (arith, there, none_there))
            | inr miss ↦ inl miss
          ])
      | inl there ↦
          let s_in : In s t.streams = rw (ensure_stream, there) at i in
          All-from (IsNotBehind n v) t.streams (λ r j.
            elim (Bool-cases (has_binding n.binding_key r)) [
              | inl hit ↦
                  let same : s ≡ r = keyed.one_stream s r s_in j (
                    (eq_iff s.binding_key n.binding_key).0 b
                    ∙ sym ((eq_iff r.binding_key n.binding_key).0 hit)) in
                  inr (
                    subst (λ (x : Stream). x.last_source_version ≤ n.source_version) same version,
                    subst (λ (x : Stream). x.last_sequence ≤ v.sequence) same sequence,
                  )
              | inr miss ↦ inl miss
            ])
    ]

capture_intent-IsCaptured :
    (now : ℕ) (deployment_id id : String) (n : ModelAccessIntent) (t t' : AccessTables)
    (v : ModelAccessPublication)
    → IsKeyedAccess t
    → capture_intent now deployment_id id n t ≡ (ok v, t')
    → IsCaptured n v t' × All (IsNotBehind n v) t.streams
unfolding capture_intent
capture_intent-IsCaptured now deployment_id id n t t' v keyed h =
    let ss = ensure_stream n t.streams in
    let streamed : AccessTables = record t { streams = ss } in
    elim (Option-cases (find_stream n.binding_key ss)) [
      | inl e ↦
          let h' : Path CaptureOutcome (err not_found, t) (ok v, t') =
            rw (capture_intent, e) at h in
          cc
      | inr (s, e) ↦
          let (i, b) = find_stream-In n.binding_key ss s e in
          let h' : capture_stream now deployment_id id n t s streamed ≡ (ok v, t') =
            rw (capture_intent, e) at h in
          let ahead = capture_stream-IsAhead now deployment_id id n s t streamed t' v i b h' in
          (ahead.captured, all-IsNotBehind n t s v keyed i b ahead.version ahead.sequence)
    ]

-- A request to publish an access intent that succeeds leaves a stored publication with the content
-- and the validity of the intent, which is the last of the binding's stream; the stream has the
-- subject and the source version of the intent; and no stream of the binding was ahead of them
-- before. On tables with their primary keys.
pub queue_access-IsCaptured :
    (hex_sha256 : String → String) (is_json : String → Bool) (now : ℕ) (deployment_id id : String)
    (n : ModelAccessIntent) (t t' : AccessTables) (v : ModelAccessPublication)
    → IsKeyedAccess t
    → queue_access now deployment_id id n hex_sha256 is_json t ≡ (ok v, t')
    → (validate_access_intent hex_sha256 is_json deployment_id n ≡ true)
      × ((n.issued_at ≤ now) × (now < n.valid_until))
      × (IsCaptured n v t' × All (IsNotBehind n v) t.streams)
unfolding queue_access
queue_access-IsCaptured hex_sha256 is_json now deployment_id id n t t' v keyed h =
    elim (Bool-cases (validate_access_intent hex_sha256 is_json deployment_id n)) [
      | inr bad ↦
          let h' : Path CaptureOutcome (err invalid_input, t) (ok v, t') =
            rw (queue_access, bad) at h in
          cc
      | inl good ↦ elim (Bool-cases (leb n.issued_at now && ltb now n.valid_until)) [
        | inr late ↦
            let h' : Path CaptureOutcome (err invalid_input, t) (ok v, t') =
              rw (queue_access, good, late) at h in
            cc
        | inl timely ↦
            let h' : capture_intent now deployment_id id n t ≡ (ok v, t') =
              rw (queue_access, good, timely) at h in
            let captured = capture_intent-IsCaptured now deployment_id id n t t' v keyed h' in
            (good, (ground (arith, timely), ground (arith, timely)), captured)
      ]
    ]
