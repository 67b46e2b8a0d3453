-- ===== src/Common/Text.antt =====
-- Go's `strings` and `unicode` functions that the services call, over Unicode texts: `len` counts
-- the bytes of the UTF-8, and the order of texts is that of their bytes.
use Prim.Native.Nat.{ℕ, ◌-◌}
use Prim.Native.Char.{Char, code}
use Prim.Native.String
use Prim.Native.String.{String, len, compare}
use mathlib.Core.Bool.{Bool, true, false, ◌&&◌, ◌||◌}
use text.Mathlib.Text.{is_lt}
use agent_enterprise_protoco.Common.Tests.{leb, nat_beq, if◌then◌else◌}

abbrev pub str_lt : String → String → Bool
str_lt s t = is_lt (compare s t)

-- `unicode.IsSpace`: the Unicode property White_Space.
unfoldable pub is_space : ℕ → Bool
is_space c =
    leb 9 c && leb c 13
    || nat_beq c 0x20
    || nat_beq c 0x85
    || nat_beq c 0xa0
    || nat_beq c 0x1680
    || leb 0x2000 c && leb c 0x200a
    || nat_beq c 0x2028
    || nat_beq c 0x2029
    || nat_beq c 0x202f
    || nat_beq c 0x205f
    || nat_beq c 0x3000

unfoldable pub trim_left : String → String
trim_left String.[] = String.[]
trim_left (String.◌∷◌ c s) =
    let rest = trim_left s in if is_space (code c) then rest else String.◌∷◌ c s

unfoldable pub cons_trimmed : Char → String → String
cons_trimmed c String.[] = if is_space (code c) then String.[] else String.◌∷◌ c String.[]
cons_trimmed c (String.◌∷◌ d t) = String.◌∷◌ c (String.◌∷◌ d t)

-- White space at the end is dropped: a character stays if it or something behind it is no space.
unfoldable pub trim_right : String → String
unfolding cons_trimmed
trim_right String.[] = String.[]
trim_right (String.◌∷◌ c s) = cons_trimmed c (trim_right s)

unfoldable pub trim_space : String → String
unfolding trim_left trim_right is_space
trim_space s = trim_right (trim_left s)

-- `strings.Contains`, by the position that the search finds.
unfoldable pub str_contains : String → String → Bool
str_contains s t = leb (String.find s t) (len s)

-- `s + t`.
abbrev pub append : String → String → String
append s t = String.◌++◌ s t

-- `strings.ToLower` and its inverse, on the letters of ASCII.
unfoldable pub lower_char : Char → Char
lower_char c =
    if leb b'A' (code c) && leb (code c) b'Z'
    then String.char_at "abcdefghijklmnopqrstuvwxyz" (code c - b'A')
    else c

unfoldable pub upper_char : Char → Char
upper_char c =
    if leb b'a' (code c) && leb (code c) b'z'
    then String.char_at "ABCDEFGHIJKLMNOPQRSTUVWXYZ" (code c - b'a')
    else c

unfoldable pub to_lower : String → String
unfolding lower_char
to_lower String.[] = String.[]
to_lower (String.◌∷◌ c s) = String.◌∷◌ (lower_char c) (to_lower s)

-- `strings.Cut(s, " ")`: the text before the first space, the text behind it, and whether there is
-- a space.
unfoldable pub cut_space : String → String × String × Bool
cut_space String.[] = (String.[], String.[], false)
cut_space (String.◌∷◌ c s) =
    let (before, after, found) = cut_space s in
    if nat_beq (code c) 0x20 then (String.[], s, true) else (String.◌∷◌ c before, after, found)
