-- ===== src/Authorizer/Http.antt =====
-- Go's `http.Header`, as far as handler.go uses it, and handler.go's `setTrustedHeader`,
-- `removeUntrustedAEPHeaders`, `validRequestID` and `bearerToken`. A header is a map from canonical
-- names to lists of values.
use agent_enterprise_protoco.Common.{
  ℕ, String, ◌≡◌, refl, Bool, true, false, not, ◌&&◌, ◌||◌, Option, none, some, List, [], ◌∷◌,
  arith, ltb, leb, if◌then◌else◌, ◌==◌, nat_eq, string_eq,
}
use Prim.Native.Char.{code}
use Prim.Native.String.{len}
use text.Mathlib.Text.{starts_with}
use agent_enterprise_protoco.Common.Maps.{
  lookup, insert, delete, keep, lookup-insert, lookup-delete, lookup-keep,
}
use agent_enterprise_protoco.Common.Text.{trim_space, to_lower, lower_char, upper_char, cut_space}

abbrev pub Header : Type 0
Header = List (String × List String)

is_letter_or_digit : ℕ → Bool
is_letter_or_digit c =
    leb b'a' c && leb c b'z' || leb b'A' c && leb c b'Z' || leb b'0' c && leb c b'9'

char_in : ℕ → String → Bool
char_in c String.[] = false
char_in c (String.◌∷◌ d s) = c == code d || char_in c s

-- `httpguts.ValidHeaderFieldName` of one character.
is_token_char : ℕ → Bool
is_token_char c = is_letter_or_digit c || char_in c "!#$%&'*+-.^_`|~"

all_token_chars : String → Bool
all_token_chars String.[] = true
all_token_chars (String.◌∷◌ c s) = is_token_char (code c) && all_token_chars s

capitalise : Bool → String → String
capitalise upper String.[] = String.[]
capitalise upper (String.◌∷◌ c s) =
    String.◌∷◌ (if upper then upper_char c else lower_char c) (capitalise (code c == b'-') s)

-- `textproto.CanonicalMIMEHeaderKey`.
unfoldable pub canonical : String → String
unfolding all_token_chars is_token_char is_letter_or_digit char_in capitalise upper_char lower_char
canonical name = if all_token_chars name then capitalise true name else name

first_value : Option (List String) → String
first_value (some (v ∷ _)) = v
first_value _ = ""

unfoldable pub get : Header → String → String
unfolding first_value
get h name = first_value (lookup (canonical name) h)

unfoldable pub del : Header → String → Header
del h name = delete (canonical name) h

unfoldable pub set : Header → String → String → Header
set h name value = insert (canonical name) (value ∷ []) h

unfoldable pub set_trusted_header : Header → String → String → Header
unfolding set del
set_trusted_header h name value = set (del h name) name value

unfoldable pub is_aep_name : String → Bool
is_aep_name name = starts_with (to_lower name) "x-aep-"

unfoldable pub remove_untrusted_aep_headers : Header → Header
remove_untrusted_aep_headers h = keep (λ name. not (is_aep_name name)) h

is_request_id_char : ℕ → Bool
unfolding is_letter_or_digit char_in
is_request_id_char c = is_letter_or_digit c || char_in c "-_.:"

all_request_id_chars : String → Bool
all_request_id_chars String.[] = true
all_request_id_chars (String.◌∷◌ c s) = is_request_id_char (code c) && all_request_id_chars s

unfoldable pub valid_request_id : String → Bool
unfolding is_request_id_char all_request_id_chars
valid_request_id value =
    if len value == 0 || ltb 128 (len value) then false else all_request_id_chars value

-- The token, if the header is a bearer credential.
unfoldable pub bearer_token : String → Option String
unfolding trim_space to_lower cut_space
bearer_token header =
    let (scheme, rest, found) = cut_space (trim_space header) in
    let token = trim_space rest in
    if found && to_lower scheme == "bearer" && not (token == "") then some token else none

-- Looking a name up after each change.
pub lookup-set_trusted_header :
    (h : Header) (name n value : String)
    → lookup n (set_trusted_header h name value)
      ≡ (if canonical name == n then some (value ∷ []) else lookup n h)
unfolding set_trusted_header
lookup-set_trusted_header h name n value = ground (
  arith,
  lookup-insert (canonical name) n (value ∷ []) (delete (canonical name) h),
  lookup-delete (canonical name) n h,
)

pub lookup-del :
    (h : Header) (name n : String)
    → lookup n (del h name) ≡ (if canonical name == n then none else lookup n h)
unfolding del
lookup-del h name n = lookup-delete (canonical name) n h

pub lookup-remove :
    (h : Header) (n : String)
    → lookup n (remove_untrusted_aep_headers h) ≡ (if is_aep_name n then none else lookup n h)
unfolding remove_untrusted_aep_headers
lookup-remove h n = ground (arith, lookup-keep (λ name. not (is_aep_name name)) n h)

names :
    (canonical "X-AEP-Model-ID" ≡ "X-Aep-Model-Id")
    × (bearer_token " bearer  abc " ≡ some "abc")
    × (valid_request_id "a.B-9" ≡ true)
    × (is_aep_name "X-Aep-User-Id" ≡ true)
    × (bearer_token "Basic abc" ≡ none)
unfolding canonical bearer_token valid_request_id is_aep_name to_lower
names = (refl, refl, refl, refl, refl)
