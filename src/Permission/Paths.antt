-- ===== src/Permission/Paths.antt =====
-- pkgs/extensions/interceptor-permission/src/rules.rs: the paths among a call's arguments. The
-- parameter `lower` is `str::to_lowercase`.
use jan_klod.Common.{
  String, Bool, true, false, ◌||◌, List, [], ◌∷◌, ◌++◌, any, str_eq, ◌==◌, is_whitespace,
  if◌then◌else◌,
}
use Prim.Native.Char.{Char, code}
use jan_klod.Json.{
  Value, Items, Fields, null, boolean, number, string, array, object, nil, item, end, field,
}

abbrev pub is_slash : Char → Bool
is_slash c = code c == 47

-- `str::starts_with` of a text, and `str::ends_with`.
unfoldable pub starts_with : String → String → Bool
starts_with s String.[] = true
starts_with String.[] (String.◌∷◌ d p) = false
starts_with (String.◌∷◌ c s) (String.◌∷◌ d p) =
    let rest = starts_with s p in if code c == code d then rest else false

unfoldable pub ends_with : String → String → Bool
ends_with String.[] suffix = str_eq "" suffix
ends_with (String.◌∷◌ c s) suffix =
    let rest = ends_with s suffix in if str_eq (String.◌∷◌ c s) suffix then true else rest

-- A character goes to the front of the first piece.
abbrev pub grow : Char → List String → List String
grow c [] = String.◌∷◌ c "" ∷ []
grow c (s ∷ ss) = String.◌∷◌ c s ∷ ss

-- `str::split` at the characters that `at` holds of: one piece more than there are of them.
unfoldable pub split : (Char → Bool) → String → List String
split at String.[] = "" ∷ []
split at (String.◌∷◌ c s) = let rest = split at s in if at c then "" ∷ rest else grow c rest

abbrev pub non_empty : List String → List String
non_empty [] = []
non_empty (s ∷ ss) = if str_eq s "" then non_empty ss else s ∷ non_empty ss

-- `str::split_whitespace`.
unfoldable pub split_whitespace : String → List String
split_whitespace s = non_empty (split is_whitespace s)

abbrev pub last_or : String → List String → String
last_or default [] = default
last_or default (s ∷ ss) = last_or s ss

abbrev pub first_or : String → List String → String
first_or default [] = default
first_or default (s ∷ ss) = s

-- `path.rsplit('/').next().unwrap_or(path)`.
unfoldable pub base_name : String → String
base_name path = last_or path (split is_slash path)

abbrev pub path_keys : List String
path_keys =
    "path" ∷ "paths" ∷ "file" ∷ "files" ∷ "dir" ∷ "directory" ∷ "cwd" ∷ "command" ∷ "args" ∷ []

module _ (lower : String → String) where
  unfoldable mutual
    -- `walk` of `path_values`, which adds its texts to `out` in order.
    pub walk : Bool → Value → List String
    walk under null = []
    walk under (boolean b) = []
    walk under (number n) = []
    walk under (string s) = if under then s ∷ [] else []
    walk under (array xs) = walk_items under xs
    walk under (object fs) = walk_fields under fs

    pub walk_items : Bool → Items → List String
    walk_items under nil = []
    walk_items under (item x xs) = walk under x ++ walk_items under xs

    pub walk_fields : Bool → Fields → List String
    walk_fields under end = []
    walk_fields under (field key x fs) =
        walk (under || any (str_eq (lower key)) path_keys) x ++ walk_fields under fs

  unfoldable pub path_values : Value → List String
  path_values value = walk false value
