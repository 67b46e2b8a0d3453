-- ===== src/Authorizer/Body.antt =====
-- handler.go, `readModelRequest`, `jsonModelField` and `multipartModelField`. The decoders of the
-- standard library are not modelled: a body is given by what they make of it.
use agent_enterprise_protoco.Common.{
  ℕ, ◌≤◌, String, ◌≡◌, ◌≢◌, Bool, not, ◌||◌, Option, none, some, List, [], ◌∷◌, ltb, if◌then◌else◌,
  ◌==◌, nat_eq, string_eq,
}
use agent_enterprise_protoco.Common.Results.{Result, ok, err}
use Prim.Native.String.{len}
use agent_enterprise_protoco.Common.Text.{trim_space}

pub data BodyError : Type 0 where
  request_too_large invalid_request : BodyError

-- What `NextPart` returns: an error, or a part with its form name and the text of its content.
pub data Part : Type 0 where
  malformed : Part
  part : (form_name : String) → (content : Option String) → Part

-- What the content type selects: the parts up to the end of a multipart body, with the boundary, or
-- the field `model` of a JSON body, empty where it is missing.
pub data Encoded : Type 0 where
  multipart : (boundary : String) → List Part → Encoded
  json : Option String → Encoded

pub record RequestBody : Type 0 where
  pub readable : Bool
  pub size : ℕ
  pub encoded : Encoded

-- A model is named by itself, without white space around it, in at most 256 bytes.
unfoldable pub exact_model : String → Result BodyError String
exact_model value =
    let model = trim_space value in
    if model == "" || ltb 256 (len model) || not (model == value)
    then err invalid_request
    else ok model

unfoldable pub json_model_field : Option String → Result BodyError String
json_model_field none = err invalid_request
json_model_field (some model) =
    if trim_space model == "" then err invalid_request else exact_model model

unfoldable pub part_model : Option String → Result BodyError String
part_model none = err invalid_request
part_model (some value) = exact_model value

-- The loop over the parts.
unfoldable pub find_model : List Part → Result BodyError String
find_model [] = err invalid_request
find_model (malformed ∷ parts) = err invalid_request
find_model (part form_name content ∷ parts) =
    let rest = find_model parts in if not (form_name == "model") then rest else part_model content

unfoldable pub multipart_model_field : String → List Part → Result BodyError String
multipart_model_field boundary parts =
    if boundary == "" then err invalid_request else find_model parts

unfoldable pub model_field : Encoded → Result BodyError String
model_field (multipart boundary parts) = multipart_model_field boundary parts
model_field (json model) = json_model_field model

unfoldable pub read_model_request : RequestBody → ℕ → Result BodyError String
read_model_request body limit =
    if not body.readable
    then err invalid_request
    else if ltb limit body.size
    then err request_too_large
    else model_field body.encoded

-- A model that is its own trimmed text, not empty and at most 256 bytes long.
abbrev pub IsExact : String → Type 0
IsExact model = (model ≢ "") × (len model ≤ 256) × (trim_space model ≡ model)
