-- ===== src/Common/Decimal.antt =====
-- `strconv.FormatInt` and `strconv.ParseInt` in base ten, on 64 bits. Sequences are natural numbers.
use Prim.Native.Nat.{ℕ, zero, suc, ◌+◌, ◌-◌, ◌*◌, ◌/◌, ◌%◌}
use Prim.Native.String.{String}
use mathlib.Core.Path.{◌≡◌, refl}
use mathlib.Core.Bool.{Bool, ◌&&◌}
use mathlib.Core.Option.{Option, none, some}
use agent_enterprise_protoco.Common.Tests.{ltb, leb, if◌then◌else◌}
use agent_enterprise_protoco.Common.Equality.{◌==◌, nat_eq}
use Prim.Native.Char.{code}
use Prim.Native.String
use agent_enterprise_protoco.Common.Int.{ℤ, pos, negsuc}
use agent_enterprise_protoco.Common.Text.{append}

abbrev digit : ℕ → String
digit n = String.slice "0123456789" n (n + 1)

-- With one round for each digit.
unfoldable pub format_digits : ℕ → ℕ → String
format_digits zero n = ""
format_digits (suc fuel) n =
    let rest = format_digits fuel (n / 10) in
    if ltb n 10 then digit n else append rest (digit (n % 10))

-- The numbers of 64 bits have at most 19 digits.
unfoldable pub format_int : ℕ → String
format_int = format_digits 19

abbrev is_digit : ℕ → Bool
is_digit c = leb b'0' c && leb c b'9'

unfoldable pub parse_digits : ℕ → String → Option ℕ
parse_digits n String.[] = some n
parse_digits n (String.◌∷◌ c s) =
    let rest = parse_digits (n * 10 + (code c - b'0')) s in if is_digit (code c) then rest else none

unfoldable pub parse_nat : String → Option ℕ
parse_nat String.[] = none
parse_nat (String.◌∷◌ c s) = parse_digits 0 (String.◌∷◌ c s)

abbrev negative : ℕ → ℤ
negative zero = pos 0
negative (suc n) = negsuc n

-- `-2^63` is a number of 64 bits, `2^63` is not.
unfoldable pub in_range : ℕ → Option ℕ → Option ℕ
in_range bound none = none
in_range bound (some n) = if leb n bound then some n else none

unfoldable pub as_int : (ℕ → ℤ) → Option ℕ → Option ℤ
as_int sign none = none
as_int sign (some n) = some (sign n)

unfoldable pub parse_int : String → Option ℤ
parse_int String.[] = none
parse_int (String.◌∷◌ c s) =
    if code c == b'-'
    then as_int negative (in_range 9223372036854775808 (parse_nat s))
    else if code c == b'+'
    then as_int pos (in_range 9223372036854775807 (parse_nat s))
    else as_int pos (in_range 9223372036854775807 (parse_nat (String.◌∷◌ c s)))

run : Unit {0}
unfolding format_digits format_int parse_digits parse_nat in_range as_int parse_int
run = tt

format_test : Path String (format_int 1203) "1203"
unfolding run
format_test = refl

parse_test :
    (parse_int "1203" ≡ some (pos 1203))
    × (parse_int "-7" ≡ some (negsuc 6))
    × (parse_int "12a" ≡ none)
    × (parse_int "9223372036854775808" ≡ none)
unfolding run
parse_test = (refl, refl, refl, refl)
