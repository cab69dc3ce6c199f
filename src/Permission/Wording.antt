-- ===== src/Permission/Wording.antt =====
-- pkgs/extensions/interceptor-permission/src/rules.rs: answers and verdicts as text, and what the user
-- is told of a call.
pub mod OneLine
use jan_klod.Common.{
  ℕ, zero, suc, ◌+◌, ◌*◌, ◌/◌, ◌%◌, String, Bool, true, false, ◌&&◌, ◌||◌, List, [], ◌∷◌, Option,
  none, some, any, str_eq, format, decimal, trim, is_empty, is_control, ltb, leb, ◌==◌, Result,
  if◌then◌else◌,
}
use Prim.Native.Char.{Char, code}
use Prim.Native.String
use jan_klod.Json.{Codec, Value}
use jan_klod.Permission.Rules.{or_else, parsed, text_field}

abbrev pub is_space : Char → Bool
is_space c = code c == 32

-- `if ch.is_control() { ' ' } else { ch }`.
abbrev pub spaced : Char → Char
spaced c = if is_control c then " " else c

-- The loop of `one_line`, after `n` characters of which the last was a space or not.
unfoldable pub one_line_loop : ℕ → ℕ → Bool → String → String
one_line_loop limit n last_was_space String.[] = ""
one_line_loop limit n last_was_space (String.◌∷◌ c s) =
    let skipped = one_line_loop limit n true s in
    let kept = String.◌∷◌ (spaced c) (one_line_loop limit (n + 1) (is_space (spaced c)) s) in
    if is_space (spaced c) && last_was_space then skipped else if leb limit n then "…" else kept

unfoldable pub one_line : String → ℕ → String
one_line text limit = one_line_loop limit 0 false text

-- The bytes of a character in UTF-8, and `str::len`.
abbrev pub utf8_bytes : Char → ℕ
utf8_bytes c =
    if ltb (code c) 0x80
    then 1
    else if ltb (code c) 0x800
    then 2
    else if ltb (code c) 0x10000
    then 3
    else 4

unfoldable pub byte_length : String → ℕ
byte_length String.[] = 0
byte_length (String.◌∷◌ c s) = utf8_bytes c + byte_length s

unfoldable pub bytes : ℕ → String
bytes n =
    if ltb n 1024
    then format (decimal n ∷ " B" ∷ [])
    else format (decimal (n / 1024) ∷ "." ∷ decimal (n % 1024 * 10 / 1024) ∷ " kB" ∷ [])

abbrev pub refusals_before_standing_deny : ℕ
refusals_before_standing_deny = 3

unfoldable pub denial_message : String → Bool → String
denial_message what true = format (
    "Refused: " ∷ what
    ∷ ". This kind of call is refused for the rest of the session — do not attempt it again. If the task cannot be completed without it, say so and stop."
    ∷ [])
denial_message what false = format (
    "Refused by the user: " ∷ what
    ∷ ". Do not repeat the same call. Either continue without it, or explain what you need and let the user decide."
    ∷ [])

pub data Answer : Type 0 where
  once always no never : Answer

pub data Standing : Type 0 where
  allow deny : Standing

abbrev pub approves : Answer → Bool
approves once = true
approves always = true
approves no = false
approves never = false

abbrev pub standing : Answer → Option Standing
standing always = some allow
standing never = some deny
standing once = none
standing no = none

abbrev pub as_text : Standing → String
as_text allow = "allow"
as_text deny = "deny"

unfoldable pub parse_standing : String → Option Standing
parse_standing stored =
    if str_eq (trim stored) "allow"
    then some allow
    else if str_eq (trim stored) "deny"
    then some deny
    else none

module _ (lower : String → String) where
  unfoldable pub parse_answer : String → Answer
  parse_answer answer =
      let said = lower (trim answer) in
      if any (str_eq said) ("y" ∷ "yes" ∷ "allow" ∷ "approve" ∷ "ok" ∷ [])
      then once
      else if any (str_eq said) ("a" ∷ "always" ∷ "yes-always" ∷ "allow-always" ∷ [])
      then always
      else if any (str_eq said) ("never" ∷ "no-never" ∷ "deny-always" ∷ [])
      then never
      else no

module _ (codec : Codec) (lower : String → String) where
  -- What is written to a file.
  abbrev pub write_summary : String → Option String → String
  write_summary place none = format ("write to " ∷ place ∷ [])
  write_summary place (some text) = format (
      "write " ∷ bytes (byte_length text) ∷ " to " ∷ place ∷ ": \"" ∷ one_line text 100 ∷ "\"" ∷ [])

  abbrev pub edit_summary : String → String → Option String → String
  edit_summary op place none = format (op ∷ " in " ∷ place ∷ [])
  edit_summary op place (some text) =
      if is_empty text
      then format ("delete lines in " ∷ place ∷ [])
      else format (op ∷ " in " ∷ place ∷ ": \"" ∷ one_line text 100 ∷ "\"" ∷ [])

  abbrev pub path_summary : String → String → Option String → String
  path_summary op place contents =
      if is_empty op
      then format ("act on " ∷ place ∷ [])
      else if str_eq op "write"
      then write_summary place contents
      else if str_eq op "replace" || str_eq op "insert"
      then edit_summary op place contents
      else format (one_line op 24 ∷ " " ∷ place ∷ [])

  abbrev pub op_summary : String → String → String
  op_summary name op =
      if is_empty op
      then format ("call `" ∷ name ∷ "`" ∷ [])
      else format ("`" ∷ name ∷ "` " ∷ one_line op 24 ∷ [])

  abbrev pub place_summary : String → String → Value → Option String → String
  place_summary name op value none = op_summary name op
  place_summary name op value (some path) =
      path_summary op (format ("`" ∷ one_line path 80 ∷ "`" ∷ []))
        (text_field codec lower value "contents")

  abbrev pub url_summary : String → String → Value → Option String → String
  url_summary name op value none = place_summary name op value (text_field codec lower value "path")
  url_summary name op value (some url) = format ("fetch " ∷ one_line url 160 ∷ [])

  abbrev pub command_summary : String → String → Value → Option String → String
  command_summary name op value none =
      url_summary name op value (text_field codec lower value "url")
  command_summary name op value (some command) = format ("run `" ∷ one_line command 160 ∷ "`" ∷ [])

  abbrev pub summary : String → Option Value → String
  summary name none = format ("`" ∷ name ∷ "` with arguments that are not valid JSON" ∷ [])
  summary name (some value) =
      command_summary name (lower (or_else (text_field codec lower value "op") "")) value
        (text_field codec lower value "command")

  unfoldable pub summarise : String → String → String
  summarise name arguments = summary name (parsed (codec.from_str arguments))
