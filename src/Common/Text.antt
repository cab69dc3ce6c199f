-- ===== src/Common/Text.antt =====
-- Text as the source uses it: `format!` as concatenation, decimal numbers, the character classes
-- of `char::is_whitespace` and `char::is_control`, `trim`, `split` and `rsplit`.
use Prim.Native.Nat.{ℕ, zero, suc, ◌+◌, ◌*◌, ◌-◌, ◌/◌, ◌%◌}
use Prim.Native.Char.{Char, code}
use Prim.Native.String
use Prim.Native.String.{String}
use mathlib.Core.Path.{◌≡◌, refl}
use mathlib.Core.Bool.{Bool, true, false, ◌&&◌, ◌||◌}
use mathlib.Core.Option.{Option, none, some}
use mathlib.Core.List.{List, [], ◌∷◌}
use jan_klod.Common.Tests.{ltb, leb, ◌==◌, if◌then◌else◌}

-- `format!`: the pieces in order.
abbrev pub format : List String → String
format [] = ""
format (s ∷ []) = s
format (s ∷ (t ∷ ss)) = String.◌++◌ s (format (t ∷ ss))

abbrev pub is_empty : String → Bool
is_empty String.[] = true
is_empty (String.◌∷◌ c s) = false

-- `slice::join`.
abbrev pub join : String → List String → String
join sep [] = ""
join sep (s ∷ []) = s
join sep (s ∷ (t ∷ ss)) = String.◌++◌ s (String.◌++◌ sep (join sep (t ∷ ss)))

digit : ℕ → String
digit n =
    if n == 0
    then "0"
    else if n == 1
    then "1"
    else if n == 2
    then "2"
    else if n == 3
    then "3"
    else if n == 4
    then "4"
    else if n == 5
    then "5"
    else if n == 6
    then "6"
    else if n == 7
    then "7"
    else if n == 8
    then "8"
    else "9"

decimal_loop : ℕ → ℕ → String
decimal_loop zero n = digit n
decimal_loop (suc fuel) n =
    let more = String.◌++◌ (decimal_loop fuel (n / 10)) (digit (n % 10)) in
    if ltb n 10 then digit n else more

-- `Display` of an unsigned number; `n` rounds are more than the number of its digits.
unfoldable pub decimal : ℕ → String
unfolding decimal_loop digit
decimal n = decimal_loop n n

-- White_Space, as `char::is_whitespace` has it.
unfoldable pub is_whitespace : Char → Bool
is_whitespace ch =
    let c = code ch in
    (leb 9 c && leb c 13)
    || c == 32
    || c == 0x85
    || c == 0xa0
    || c == 0x1680
    || (leb 0x2000 c && leb c 0x200a)
    || c == 0x2028
    || c == 0x2029
    || c == 0x202f
    || c == 0x205f
    || c == 0x3000

-- General category Cc, as `char::is_control` has it.
unfoldable pub is_control : Char → Bool
is_control ch = ltb (code ch) 32 || (leb 127 (code ch) && leb (code ch) 159)

unfoldable pub trim_start : String → String
trim_start String.[] = ""
trim_start (String.◌∷◌ c s) = if is_whitespace c then trim_start s else String.◌∷◌ c s

-- The text up to the last character that is no white space.
unfoldable pub trim_end : String → String
trim_end String.[] = ""
trim_end (String.◌∷◌ c s) =
    let rest = trim_end s in if is_empty rest && is_whitespace c then "" else String.◌∷◌ c rest

unfoldable pub trim : String → String
unfolding trim_start trim_end is_whitespace
trim s = trim_end (trim_start s)

-- `str::strip_prefix`.
unfoldable pub strip_prefix : String → String → Option String
strip_prefix s String.[] = some s
strip_prefix String.[] (String.◌∷◌ d p) = none
strip_prefix (String.◌∷◌ c s) (String.◌∷◌ d p) =
    let rest = strip_prefix s p in if code c == code d then rest else none

-- `str::parse` to an unsigned number of at most `max`, of the digits after those that make `n`.
unfoldable pub parse_digits : ℕ → ℕ → String → Option ℕ
parse_digits max n String.[] = if leb n max then some n else none
parse_digits max n (String.◌∷◌ c s) =
    let rest = parse_digits max (n * 10 + (code c - 48)) s in
    if leb 48 (code c) && leb (code c) 57 then rest else none

parse_unsigned : ℕ → String → Option ℕ
parse_unsigned max String.[] = none
parse_unsigned max (String.◌∷◌ c s) = parse_digits max 0 (String.◌∷◌ c s)

unfoldable pub parse_number : ℕ → String → Option ℕ
unfolding parse_unsigned
parse_number max String.[] = none
parse_number max (String.◌∷◌ c s) =
    if code c == 43 then parse_unsigned max s else parse_digits max 0 (String.◌∷◌ c s)

-- `str::split_once` at `://`, and at a character; `str::rsplit_once` at a character.
abbrev pub before_split : Char → Option (String × String) → Option (String × String)
before_split c none = none
before_split c (some (s, t)) = some (String.◌∷◌ c s, t)

abbrev pub found_or : Option String → Option (String × String) → Option (String × String)
found_or (some rest) later = some ("", rest)
found_or none later = later

unfoldable pub split_scheme : String → Option (String × String)
split_scheme String.[] = none
split_scheme (String.◌∷◌ c s) =
    found_or (strip_prefix (String.◌∷◌ c s) "://") (before_split c (split_scheme s))

unfoldable pub split_once : ℕ → String → Option (String × String)
split_once at String.[] = none
split_once at (String.◌∷◌ c s) =
    let later = before_split c (split_once at s) in if code c == at then some ("", s) else later

abbrev pub last_split : ℕ → Char → String → Option (String × String) → Option (String × String)
last_split at c s (some (t, u)) = some (String.◌∷◌ c t, u)
last_split at c s none = if code c == at then some ("", s) else none

unfoldable pub rsplit_once : ℕ → String → Option (String × String)
rsplit_once at String.[] = none
rsplit_once at (String.◌∷◌ c s) = last_split at c s (rsplit_once at s)

decimal_example : decimal 1024 ≡ "1024"
unfolding decimal
decimal_example = refl

trim_example : trim "  a b " ≡ "a b"
unfolding trim
trim_example = refl
