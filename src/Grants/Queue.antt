-- ===== src/Grants/Queue.antt =====
-- model_access_publications.go: `validateAccessIntent` and `QueueModelAccessPublication`, as a step of
-- the tables that leaves them alone when it fails. Times are whole milliseconds, which the truncation
-- to microseconds keeps, and 0 is Go's zero time. `hex_sha256` and `is_json` stand for the digest and
-- for `json.Valid`; `id` is a fresh UUID. The keys of migration 053 refuse a second row.
use agent_enterprise_protoco.Common.{
  ℕ, ◌+◌, ◌-◌, String, Bool, true, false, not, ◌&&◌, ◌||◌, Option, none, some, List, [], ◌∷◌, ltb,
  leb, if◌then◌else◌, any, ◌==◌, nat_eq, string_eq,
}
use agent_enterprise_protoco.Common.Results.{Result, ok, err}
use Prim.Native.Char.{code}
use Prim.Native.String
use Prim.Native.String.{len}
use agent_enterprise_protoco.Common.Text.{trim_space}
use agent_enterprise_protoco.Publication.Tables.{OutboxRow, update, is_null, is_open}
use agent_enterprise_protoco.Publication.Delivery.{complete}
use agent_enterprise_protoco.Publication.Queue.{new_row}
use agent_enterprise_protoco.Grants.Tables.{Stream, ModelAccessPublication, AccessTables}

pub data CaptureError : Type 0 where
  invalid_input stale conflict not_found duplicate_key : CaptureError

pub record PublicationSnapshot : Type 0 where
  pub deployment_id : String
  pub revision : String
  pub content_hash : String
  pub payload : String

pub record ModelAccessIntent : Type 0 where
  pub binding_key : String
  pub subject_id : String
  pub source_version : ℕ
  pub snapshot : PublicationSnapshot
  pub issued_at : ℕ
  pub valid_until : ℕ

unfoldable pub is_hex : String → Bool
is_hex String.[] = true
is_hex (String.◌∷◌ c s) =
    (leb b'a' (code c) && leb (code c) b'f' || leb b'0' (code c) && leb (code c) b'9') && is_hex s

-- `^[a-f0-9]{64}$`.
unfoldable pub is_hex_digest : String → Bool
is_hex_digest s = String.count s == 64 && is_hex s

unfoldable pub starts_object : String → Bool
starts_object String.[] = false
starts_object (String.◌∷◌ c s) = code c == b'{'

-- An hour.
abbrev pub longest : ℕ
longest = 3600000

unfoldable pub validate_access_intent :
    (hex_sha256 : String → String) (is_json : String → Bool) (deployment_id : String)
    → ModelAccessIntent
    → Bool
validate_access_intent hex_sha256 is_json deployment_id n =
    let m = n.snapshot in
    let payload = trim_space m.payload in
    is_hex_digest n.binding_key
    && ltb 0 (len n.subject_id)
    && leb (len n.subject_id) 256
    && ltb 0 n.source_version
    && ltb 0 (len m.revision)
    && leb (len m.revision) 200
    && (m.deployment_id == "" || m.deployment_id == deployment_id)
    && leb 2 (len payload)
    && leb (len m.payload) 1048576
    && starts_object payload
    && is_json payload
    && m.content_hash == hex_sha256 m.payload
    && not (n.issued_at == 0)
    && ltb n.issued_at n.valid_until
    && leb (n.valid_until - n.issued_at) longest

abbrev pub has_binding : String → Stream → Bool
has_binding binding_key s = s.binding_key == binding_key

unfoldable pub new_stream : ModelAccessIntent → Stream
new_stream n = record {
  binding_key = n.binding_key;
  subject_id = n.subject_id;
  last_source_version = 0;
  last_sequence = 0;
}

-- `INSERT … ON CONFLICT DO NOTHING`.
unfoldable pub ensure_stream : ModelAccessIntent → List Stream → List Stream
ensure_stream n ss = if any (has_binding n.binding_key) ss then ss else new_stream n ∷ ss

unfoldable pub find_stream : String → List Stream → Option Stream
find_stream binding_key [] = none
find_stream binding_key (s ∷ ss) =
    let rest = find_stream binding_key ss in if has_binding binding_key s then some s else rest

unfoldable pub is_at : (binding_key : String) → (sequence : ℕ) → ModelAccessPublication → Bool
is_at binding_key sequence p = p.binding_key == binding_key && p.sequence == sequence

unfoldable pub find_at :
    (binding_key : String)
    → (sequence : ℕ) → List ModelAccessPublication
    → Option ModelAccessPublication
find_at binding_key sequence [] = none
find_at binding_key sequence (p ∷ ps) =
    let rest = find_at binding_key sequence ps in
    if is_at binding_key sequence p then some p else rest

unfoldable pub is_same : ModelAccessIntent → ModelAccessPublication → Bool
is_same n p = p.content_hash == n.snapshot.content_hash && p.valid_until == n.valid_until

-- The older open intents of the binding are given up.
unfoldable pub is_overtaken :
    (binding_key : String) → (sequence : ℕ) → ModelAccessPublication → Bool
is_overtaken binding_key sequence p =
    p.binding_key == binding_key && ltb p.sequence sequence && is_open p.phase

abbrev pub superseded : ModelAccessPublication → ModelAccessPublication
superseded p = record p { phase = "superseded"; error_code = none }

unfoldable pub is_given_up : (binding_key : String) → List ModelAccessPublication → OutboxRow → Bool
is_given_up binding_key ps o =
    any
      (λ p.
        p.operation_id == o.operation_id && p.binding_key == binding_key && p.phase == "superseded")
      ps
    && is_null o.completed_at

unfoldable pub is_refused : ModelAccessPublication → AccessTables → Bool
is_refused v t =
    any (λ p. p.operation_id == v.operation_id || is_at v.binding_key v.sequence p) t.publications
    || any (λ o. o.operation_id == v.operation_id) t.outbox

abbrev pub Captured : Type 0
Captured = Result CaptureError ModelAccessPublication × AccessTables

module _ (now : ℕ) (deployment_id id : String) (n : ModelAccessIntent) where
  unfoldable pub new_access : Stream → ModelAccessPublication
  new_access s = record {
    deployment_id = deployment_id;
    binding_key = n.binding_key;
    subject_id = n.subject_id;
    operation_id = id;
    sequence = s.last_sequence + 1;
    source_version = n.source_version;
    revision = n.snapshot.revision;
    content_hash = n.snapshot.content_hash;
    payload = n.snapshot.payload;
    issued_at = n.issued_at;
    valid_until = n.valid_until;
    phase = "queued";
    error_code = none;
    created_at = now;
  }

  -- New source work of an unchanged intent is confirmed.
  unfoldable pub confirm_work : ModelAccessPublication → AccessTables → Captured
  confirm_work p t = (
    ok p,
    record t {
      streams =
          update (has_binding n.binding_key)
            (λ s. record s { last_source_version = n.source_version }) t.streams;
    },
  )

  unfoldable pub insert_access : (before : AccessTables) → Stream → AccessTables → Captured
  insert_access before s t =
      let v = new_access s in
      let ps = update (is_overtaken v.binding_key v.sequence) superseded (v ∷ t.publications) in
      if is_refused v t then (err duplicate_key, before) else (
        ok v,
        record {
          streams =
              update (has_binding n.binding_key)
                (λ r. record r {
                  last_source_version = n.source_version;
                  last_sequence = v.sequence;
                })
                t.streams;
          publications = ps;
          outbox = update (is_given_up v.binding_key ps) (complete now) (new_row now id ∷ t.outbox);
        },
      )

  -- The stream's last intent is compared with the new one.
  unfoldable pub capture_after :
      (before : AccessTables) → Stream → AccessTables → ModelAccessPublication → Captured
  capture_after before s t p =
      if n.source_version == s.last_source_version && not (is_same n p)
      then (err conflict, before)
      else if is_same n p
          && (not (p.phase == "failed") || n.source_version == s.last_source_version)
      then confirm_work p t
      else insert_access before s t

  unfoldable pub capture_stream : (before : AccessTables) → Stream → AccessTables → Captured
  capture_stream before s t =
      if not (s.subject_id == n.subject_id)
      then (err conflict, before)
      else if ltb n.source_version s.last_source_version
      then (err stale, before)
      else if s.last_sequence == 0
      then insert_access before s t
      else elim (find_at n.binding_key s.last_sequence t.publications) [
        | none ↦ (err not_found, before)
        | some p ↦ capture_after before s t p
      ]

  unfoldable pub capture_intent : AccessTables → Captured
  capture_intent t =
      let streamed = record t { streams = ensure_stream n t.streams } in
      elim (find_stream n.binding_key streamed.streams) [
        | none ↦ (err not_found, t)
        | some s ↦ capture_stream t s streamed
      ]

  unfoldable pub queue_access :
      (hex_sha256 : String → String) (is_json : String → Bool) → AccessTables → Captured
  queue_access hex_sha256 is_json t =
      if not (validate_access_intent hex_sha256 is_json deployment_id n)
      then (err invalid_input, t)
      else if not (leb n.issued_at now && ltb now n.valid_until)
      then (err invalid_input, t)
      else capture_intent t
