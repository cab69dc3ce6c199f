-- ===== src/Permission/Gate/Tests.antt =====
-- Runs of pkgs/extensions/interceptor-permission, on a storage that is a function from keys to values.
use jan_klod.Common.{
  subst, trim, any, not, ◌&&◌, Bool, if◌then◌else◌, [], ◌∷◌, ◌+◌, ◌≤◌, ◌≡◌, refl, String, true,
  Option, none, some, str_eq, eq_refl, ok, if◌then◌else◌, trim, is_whitespace, is_control,
}
use jan_klod.Json.{Codec, string, object, field, end}
use jan_klod.Turn.{ToolCall, UserPrompt}
use jan_klod.Intercept.Types.{Decision}
use jan_klod.Session.Store.Rows.{str_eq-ne}
use jan_klod.Permission.Paths.{
  starts_with, ends_with, split, split_whitespace, base_name, first_or, path_values, walk,
}
use jan_klod.Permission.Rules.{
  default_policy, not_known_safe, escapes_scope, review, scope_key, is_known_safe,
  args_escape_scope, names_a_credential_file, credential_name, path_escapes, token_escapes,
}
use jan_klod.Permission.Wording.{always, never, no, parse_answer, one_line, one_line_loop}
use jan_klod.Permission.Wording.OneLine.{IsPlain, char_count, one_line-IsPlain}
use jan_klod.Permission.Gate.{Storage, block_call}
use jan_klod.Permission.Gate.Decides.{
  raises, approvals, asked, asked-approves, asked-not_remembered,
}
use jan_klod.Permission.Gate.Kinds.{program, IsUnsafe, HasKind, names_program}
use jan_klod.Permission.Gate.Remembers.{IsReliable, answered, asked-third_refusal}

abbrev Entries : Type 0
Entries = String → Option String

abbrev storage : Storage Entries
storage = record {
  get = λ key w. w key;
  set = λ key value w other. if str_eq other key then some value else w other;
}

storage-IsReliable : IsReliable storage
storage-IsReliable = record {
  reads_back = λ key value w. rw (eq_refl key) refl;
  keeps_others = λ other key value w h. rw (str_eq-ne other key h) refl;
}

abbrev empty : Entries
empty key = none

abbrev lower : String → String
lower s = s

-- A JSON library that reads one command.
abbrev codec_of : String → Codec
codec_of command = record {
  from_str = λ s. ok (object (field "command" (string command) end));
  to_string = λ v. "{}";
}

abbrev shell : ToolCall
shell = record { id = "1"; name = "shell"; arguments = "{}" }

review_run : review (codec_of "cargo test") lower default_policy "shell" "{}" ≡ some not_known_safe
unfolding review args_escape_scope names_a_credential_file credential_name is_known_safe scope_key
    path_escapes token_escapes path_values walk starts_with ends_with split split_whitespace
    base_name is_whitespace
review_run = refl

escape_run :
    review (codec_of "cat /etc/passwd") lower default_policy "shell" "{}" ≡ some escapes_scope
unfolding review args_escape_scope path_escapes token_escapes path_values walk starts_with split
    split_whitespace is_whitespace
escape_run = refl

always_run : parse_answer lower " always" ≡ always
unfolding parse_answer trim
always_run = refl

never_run : parse_answer lower "never" ≡ never
unfolding parse_answer trim
never_run = refl

no_run : parse_answer lower "no" ≡ no
unfolding parse_answer trim
no_run = refl

asked-approves_example :
    (stands : Bool) × ((asked
        (codec_of "cargo test")
        lower
        storage
        default_policy
        shell
        (some "sure")
        empty).0
      ≡ ok (
          if raises (review (codec_of "cargo test") lower default_policy shell.name shell.arguments)
            && not (any (str_eq (lower (trim "sure"))) approvals)
          then block_call (codec_of "cargo test") lower storage shell stands
          else Decision.proceed))
asked-approves_example =
    asked-approves (codec_of "cargo test") lower storage default_policy shell "sure" empty

asked-not_remembered_example :
    (q : UserPrompt) × (asked
        (codec_of "cat /etc/passwd")
        lower
        storage
        default_policy
        shell
        none
        empty
      ≡ (ok (Decision.ask q), empty))
    × (q.options ≡ "yes" ∷ "no" ∷ [])
    × (q.default_answer ≡ "no")
    × ((asked
          (codec_of "cat /etc/passwd")
          lower
          storage
          default_policy
          shell
          (some "always")
          empty).1
        ≡ empty)
asked-not_remembered_example =
    asked-not_remembered (codec_of "cat /etc/passwd") lower storage default_policy shell "always"
      escapes_scope empty escape_run (λ e. cc)

-- A JSON library that reads each text as a command.
abbrev commands : Codec
commands = record {
  from_str = λ s. ok (object (field "command" (string s) end));
  to_string = λ v. "{}";
}

abbrev cargo : String → ToolCall
cargo arguments = record { id = "1"; name = "shell"; arguments = arguments }

cargo_kind :
    (arguments : String)
    → base_name (first_or arguments (split_whitespace arguments)) ≡ "cargo"
    → review commands lower default_policy "shell" arguments ≡ some not_known_safe
    → IsUnsafe commands lower default_policy "shell" (program "cargo") (cargo arguments)
cargo_kind arguments named unsafe = record {
  named = refl;
  of_kind =
      subst (λ p. HasKind commands lower arguments (program p)) named
        (names_program _ arguments refl refl refl);
  unsafe = unsafe;
}

test-IsUnsafe :
    IsUnsafe commands lower default_policy "shell" (program "cargo") (cargo "cargo test")
unfolding review args_escape_scope names_a_credential_file credential_name is_known_safe scope_key
    path_escapes token_escapes path_values walk starts_with ends_with split split_whitespace
    base_name is_whitespace
test-IsUnsafe = cargo_kind "cargo test" refl refl

build-IsUnsafe :
    IsUnsafe commands lower default_policy "shell" (program "cargo") (cargo "cargo build")
unfolding review args_escape_scope names_a_credential_file credential_name is_known_safe scope_key
    path_escapes token_escapes path_values walk starts_with ends_with split split_whitespace
    base_name is_whitespace
build-IsUnsafe = cargo_kind "cargo build" refl refl

abbrev refused_thrice : Entries
refused_thrice =
    answered commands lower storage default_policy storage-IsReliable "shell" (program "cargo")
      (cargo "cargo test") "no"
      (answered commands lower storage default_policy storage-IsReliable "shell" (program "cargo")
        (cargo "cargo build") "no"
        (answered commands lower storage default_policy storage-IsReliable "shell" (program "cargo")
          (cargo "cargo test") "no" empty))

asked-third_refusal_example :
    asked commands lower storage default_policy (cargo "cargo build") none refused_thrice
    ≡ (ok (block_call commands lower storage (cargo "cargo build") true), refused_thrice)
asked-third_refusal_example =
    asked-third_refusal commands lower storage default_policy storage-IsReliable "shell"
      (program "cargo") (cargo "cargo test") (cargo "cargo build") (cargo "cargo test")
      (cargo "cargo build") "no" "no" "no" empty test-IsUnsafe build-IsUnsafe test-IsUnsafe
      build-IsUnsafe refl no_run no_run no_run

one_line-IsPlain_example :
    IsPlain (one_line "a long command" 6) × (char_count (one_line "a long command" 6) ≤ 6 + 1)
one_line-IsPlain_example = one_line-IsPlain "a long command" 6

one_line_run : one_line "rm\n\n  -rf" 5 ≡ "rm -r…"
unfolding one_line one_line_loop is_control
one_line_run = refl
