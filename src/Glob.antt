-- ===== src/Glob.antt =====
-- pkgs/extensions/guest-fs/src/lib.rs: the patterns of paths. The indices `pi`, `ti`, `star` and
-- `eaten` of `match_name` stand here as the rest of the pattern or of the name from that index on.
pub mod Means
pub mod Names
pub mod Paths
pub mod Tests
use jan_klod.Common.{
  ℕ, zero, suc, ◌+◌, String, Bool, true, false, not, ◌&&◌, ◌||◌, List, [], ◌∷◌, Option, none, some,
  all, any, length, is_empty, str_eq, format, ◌==◌, if◌then◌else◌,
}
use Prim.Native.Char.{Char, code}
use Prim.Native.String
use jan_klod.Permission.Paths.{split, is_slash, non_empty}
use jan_klod.Permission.Rules.{or_else}

abbrev pub is_star : Char → Bool
is_star c = code c == 42

-- `pat[pi] == '?' || pat[pi] == text[ti]`.
abbrev pub fits : Char → Char → Bool
fits c x = code c == 63 || code c == code x

-- `chars().collect()`.
abbrev pub chars : String → List Char
chars String.[] = []
chars (String.◌∷◌ c s) = c ∷ chars s

-- What a star leaves behind: the pattern after it, and the name from `eaten` on.
abbrev pub Back : Type 0
Back = Option (List Char × List Char)

-- The branch `else if let Some(s) = star`, with the loop that goes on.
abbrev pub retry : (List Char → List Char → Back → Option Bool) → Back → Option Bool
retry next none = some false
retry next (some (after, [])) = some (all is_star after)
retry next (some (after, y ∷ eaten)) = next after eaten (some (after, eaten))

-- The branches of the loop: the next character fits, the pattern goes on with a star, or neither.
abbrev pub branch :
    (List Char → List Char → Back → Option Bool)
    → List Char
    → Char
    → List Char
    → Back
    → Bool
    → Bool
    → Option Bool
branch next pat x text back true star = next pat text back
branch next pat x text back false true = next pat (x ∷ text) (some (pat, x ∷ text))
branch next pat x text back false false = retry next back

-- The `while` loop and what follows it; `none` is a loop that has not ended.
unfoldable pub match_loop : ℕ → List Char → List Char → Back → Option Bool
match_loop zero pat text back = none
match_loop (suc n) pat [] back = some (all is_star pat)
match_loop (suc n) [] (x ∷ text) back = retry (match_loop n) back
match_loop (suc n) (c ∷ pat) (x ∷ text) back =
    branch (match_loop n) pat x text back (fits c x) (is_star c)

-- More rounds than the loop takes: for each character of the name, `m` and one more.
abbrev pub rounds : ℕ → List Char → ℕ
rounds m [] = 0
rounds m (x ∷ text) = suc m + rounds m text

abbrev pub enough : List Char → List Char → ℕ
enough pat text = suc (rounds (length pat) text + length pat)

unfoldable pub match_name : String → String → Bool
match_name pattern name =
    or_else (match_loop (enough (chars pattern) (chars name)) (chars pattern) (chars name) none)
      false

-- `any` over the tails of a list, from the whole of it to the empty one.
abbrev pub any_tail : (List String → Bool) → List String → Bool
any_tail p [] = p []
any_tail p (s ∷ ss) = p (s ∷ ss) || any_tail p ss

abbrev pub match_first : String → (List String → Bool) → List String → Bool
match_first head next [] = false
match_first head next (name ∷ tail) = match_name head name && next tail

unfoldable pub match_segments : List String → List String → Bool
match_segments [] [] = true
match_segments [] (s ∷ ss) = false
match_segments (head ∷ rest) seg =
    if str_eq head "**"
    then any_tail (match_segments rest) seg
    else match_first head (match_segments rest) seg

abbrev pub segments : String → List String
segments path = non_empty (split is_slash path)

unfoldable pub matches : String → String → Bool
matches pattern path = match_segments (segments pattern) (segments path)

abbrev pub contains_slash : List Char → Bool
contains_slash = any is_slash

-- A pattern without a slash is for every depth.
unfoldable pub normalize : String → String
normalize pattern =
    if contains_slash (chars pattern) then pattern else format ("**/" ∷ pattern ∷ [])
