-- ===== src/Access/Snapshot.antt =====
-- snapshot.go and workload_entitlement.go: `Snapshot`, `valid`, `Canonical`, `Decode` and
-- `SelectedWorkloadLicense`. The JSON codec and SHA-256 are parameters; `licensed_until` is `some 0`
-- for Go's zero time.
use agent_enterprise_protoco.Common.{
  ℕ, String, Bool, true, false, not, ◌&&◌, ◌||◌, Option, none, some, List, [], ◌∷◌, ltb, leb,
  if◌then◌else◌, length, all, ◌==◌, nat_eq, string_eq,
}
use agent_enterprise_protoco.Common.Results.{Result, ok, err, refuse_if, ◌>>=◌, ◌>>◌}
use Prim.Native.Char.{code}
use Prim.Native.String
use Prim.Native.String.{len}
use text.Mathlib.Text.{starts_with}
use agent_enterprise_protoco.Common.Text.{str_lt}

pub record Subject : Type 0 where
  pub kind : String
  pub id : String

pub record Workload : Type 0 where
  pub namespace : String
  pub service_account_name : String
  pub service_account_uid : String
  pub employee_uid : String
  pub audience : String

pub record Binding : Type 0 where
  pub kind : String
  pub session_id : String
  pub workload : Option Workload

pub record License : Type 0 where
  pub id : String
  pub digest : String
  pub valid_until : Option ℕ

pub record WorkloadEntitlement : Type 0 where
  pub feature : String
  pub license_id : String
  pub license_digest : String

-- `models` is `none` for a nil slice.
pub record Snapshot : Type 0 where
  pub schema : String
  pub deployment_id : String
  pub subject : Subject
  pub binding : Binding
  pub disabled : Bool
  pub retired : Bool
  pub models : Option (List String)
  pub role_ids : List String
  pub team_ids : List String
  pub licenses : List License
  pub workload_entitlement : Option WorkloadEntitlement

unfoldable pub bounded : String → ℕ → Bool
bounded value maximum = ltb 0 (len value) && leb (len value) maximum

-- `slices.IsSorted`.
unfoldable pub is_sorted : List String → Bool
is_sorted [] = true
is_sorted (a ∷ []) = true
is_sorted (a ∷ b ∷ ids) = not (str_lt b a) && is_sorted (b ∷ ids)

-- The loop of `canonicalIDs`, with the id before.
unfoldable pub are_distinct : ℕ → Option String → List String → Bool
are_distinct max_length before [] = true
are_distinct max_length none (id ∷ ids) =
    bounded id max_length && are_distinct max_length (some id) ids
are_distinct max_length (some before) (id ∷ ids) =
    bounded id max_length && not (id == before) && are_distinct max_length (some id) ids

unfoldable pub canonical_ids : List String → (max_count max_length : ℕ) → Bool
canonical_ids ids max_count max_length =
    if ltb max_count (length ids) || not (is_sorted ids)
    then false
    else are_distinct max_length none ids

unfoldable pub is_model_character : ℕ → Bool
is_model_character c = leb b'a' c && leb c b'z' || leb b'0' c && leb c b'9'

unfoldable pub all_model_characters : String → Bool
unfolding is_model_character
all_model_characters String.[] = true
all_model_characters (String.◌∷◌ c s) =
    (is_model_character (code c) || code c == b'-') && all_model_characters s

-- The pattern `^[a-z0-9][a-z0-9-]{0,39}$`.
unfoldable pub is_model_id : String → Bool
unfolding is_model_character all_model_characters
is_model_id String.[] = false
is_model_id (String.◌∷◌ c s) =
    is_model_character (code c) && all_model_characters s && leb (String.count s) 39

all_hex : String → Bool
all_hex String.[] = true
all_hex (String.◌∷◌ c s) =
    (leb b'a' (code c) && leb (code c) b'f' || leb b'0' (code c) && leb (code c) b'9') && all_hex s

after_colon : String → String
after_colon String.[] = String.[]
after_colon (String.◌∷◌ c s) = let rest = after_colon s in if code c == b':' then s else rest

-- The pattern `^sha256:[a-f0-9]{64}$`.
unfoldable pub is_digest : String → Bool
unfolding all_hex after_colon
is_digest value =
    starts_with value "sha256:"
    && all_hex (after_colon value)
    && String.count (after_colon value) == 64

unfoldable pub is_zero_time : Option ℕ → Bool
is_zero_time none = false
is_zero_time (some t) = t == 0

-- The loop over the licences, with the id before.
unfoldable pub valid_licenses : Option String → List License → Bool
valid_licenses before [] = true
valid_licenses none (license ∷ licenses) =
    bounded license.id 256
    && is_digest license.digest
    && not (is_zero_time license.valid_until)
    && valid_licenses (some license.id) licenses
valid_licenses (some before) (license ∷ licenses) =
    bounded license.id 256
    && is_digest license.digest
    && str_lt before license.id
    && not (is_zero_time license.valid_until)
    && valid_licenses (some license.id) licenses

-- The loop of `SelectedWorkloadLicense`. The outer `none` stands for `nil, false`.
unfoldable pub select_license :
    WorkloadEntitlement → (selected : Option License) → List License → Option (Option License)
select_license e selected [] = elim selected [ none ↦ none | some license ↦ some (some license) ]
select_license e none (license ∷ licenses) =
    let passed = select_license e none licenses in
    let taken = select_license e (some license) licenses in
    if not (license.id == e.license_id)
    then passed
    else if not (license.digest == e.license_digest) || is_zero_time license.valid_until
    then none
    else taken
select_license e (some selected) (license ∷ licenses) =
    let passed = select_license e (some selected) licenses in
    if not (license.id == e.license_id) then passed else none

unfoldable pub selected_workload_license :
    String → Option WorkloadEntitlement → List License → Option (Option License)
selected_workload_license kind none licenses = some none
selected_workload_license kind (some e) licenses =
    if not (kind == "kubernetes")
      || not (e.feature == "enterprise.models")
      || not (bounded e.license_id 256)
      || not (is_digest e.license_digest)
    then none
    else select_license e none licenses

unfoldable pub is_valid_workload : Option Workload → Bool
is_valid_workload none = false
is_valid_workload (some w) =
    bounded w.namespace 63
    && bounded w.service_account_name 253
    && bounded w.service_account_uid 128
    && bounded w.employee_uid 128
    && bounded w.audience 256

abbrev pub is_absent : {A : Type 0} → Option A → Bool
is_absent none = true
is_absent (some _) = false

unfoldable pub is_valid_binding : Snapshot → Bool
is_valid_binding s =
    if s.binding.kind == "session"
    then bounded s.binding.session_id 256 && is_absent s.binding.workload
    else if s.binding.kind == "kubernetes"
    then s.subject.kind == "agent"
      && s.binding.session_id == ""
      && is_valid_workload s.binding.workload
    else false

unfoldable pub has_valid_header : Snapshot → Bool
has_valid_header s =
    s.schema == "aep-model-access/v1"
    && bounded s.deployment_id 80
    && bounded s.subject.id 256
    && (s.subject.kind == "human" || s.subject.kind == "agent")

unfoldable pub has_valid_sets : Snapshot → List String → Bool
has_valid_sets s models =
    canonical_ids models 512 40
    && canonical_ids s.role_ids 256 256
    && canonical_ids s.team_ids 256 256
    && leb (length s.licenses) 64
    && not (s.disabled && not (length models == 0))
    && not (s.retired && not s.disabled)

unfoldable pub is_valid_with : Snapshot → List String → Bool
is_valid_with s models =
    has_valid_header s
    && has_valid_sets s models
    && all is_model_id models
    && valid_licenses none s.licenses
    && not (is_absent (selected_workload_license s.binding.kind s.workload_entitlement s.licenses))
    && is_valid_binding s

-- `valid`.
unfoldable pub is_valid_snapshot : Snapshot → Bool
is_valid_snapshot s = elim s.models [ none ↦ false | some models ↦ is_valid_with s models ]

pub data SnapshotError : Type 0 where
  invalid_snapshot : SnapshotError

-- 1 MiB
abbrev pub max_payload : ℕ
max_payload = 1048576

module _ (marshal : Snapshot → String) (unmarshal : String → Option Snapshot)
    (hex_sha256 : String → String) where
  unfoldable pub canonical : Snapshot → Result SnapshotError (String × String)
  canonical s =
      if not (is_valid_snapshot s)
      then err invalid_snapshot
      else ok (marshal s, hex_sha256 (marshal s))

  unfoldable pub compare_with :
      (payload content_hash : String) → Snapshot → Result SnapshotError Snapshot
  compare_with payload content_hash s = do
    written ← canonical s
    refuse_if (not (written.1 == content_hash) || not (written.0 == payload)) invalid_snapshot
    ok s

  unfoldable pub decode : (payload content_hash : String) → Result SnapshotError Snapshot
  decode payload content_hash =
      if ltb max_payload (len payload) then err invalid_snapshot else elim (unmarshal payload) [
        | none ↦ err invalid_snapshot
        | some s ↦ compare_with payload content_hash s
      ]
