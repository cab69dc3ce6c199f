-- ===== src/Permission/Rules.antt =====
-- pkgs/extensions/interceptor-permission/src/rules.rs: the policy, and the review of a call.
use jan_klod.Common.{
  String, Bool, true, false, ◌&&◌, ◌||◌, not, List, [], ◌∷◌, Option, none, some, any, filter_map,
  str_eq, format, Result, ok, err, if◌then◌else◌,
}
use mathlib.Core.Option
use jan_klod.Json.{Codec, Value, null, object, get, as_str, as_bool, as_array, ◌>>=◌}
use jan_klod.Permission.Paths.{
  starts_with, ends_with, split, split_whitespace, is_slash, first_or, base_name, path_values,
}

abbrev pub default_safe_calls : List String
default_safe_calls = "find" ∷ "fs:read" ∷ "fs:grep" ∷ "git" ∷ "edit:view" ∷ "proc-probe" ∷ []

pub record Policy : Type 0 where
  pub safe_calls : List String
  pub allow_absolute_paths : Bool
  pub allow_parent_traversal : Bool

abbrev pub default_policy : Policy
default_policy = record {
  safe_calls = default_safe_calls;
  allow_absolute_paths = false;
  allow_parent_traversal = false;
}

pub data Concern : Type 0 where
  not_known_safe escapes_scope touches_credentials : Concern

abbrev pub or_else : {A : Type 0} → Option A → A → A
or_else none default = default
or_else (some x) default = x

abbrev pub some_if : {A : Type 0} → Bool → A → Option A
some_if true x = some x
some_if false x = none

-- Text that is not JSON reads as nothing.
abbrev pub parsed : Result Value String → Option Value
parsed (ok v) = some v
parsed (err e) = none

-- `let Ok(Value::Object(map)) = ..`.
abbrev pub as_object : Value → Option Value
as_object (object fs) = some (object fs)
as_object v = none

abbrev pub credential_names : List String
credential_names =
    ".env" ∷ ".envrc" ∷ ".netrc" ∷ ".npmrc" ∷ ".pgpass" ∷ ".git-credentials" ∷ "credentials"
    ∷ "id_rsa" ∷ []

abbrev pub credential_suffixes : List String
credential_suffixes = ".pem" ∷ ".key" ∷ ".p12" ∷ ".pfx" ∷ ".jks" ∷ ".keystore" ∷ ".ppk" ∷ []

unfoldable pub token_escapes : Policy → String → Bool
token_escapes policy token =
    (not policy.allow_absolute_paths && starts_with token "/")
    || (not policy.allow_parent_traversal && any (λ part. str_eq part "..") (split is_slash token))

unfoldable pub path_escapes : Policy → String → Bool
path_escapes policy s = any (token_escapes policy) (s ∷ split_whitespace s)

abbrev pub is_rememberable : Concern → Bool
is_rememberable not_known_safe = true
is_rememberable escapes_scope = false
is_rememberable touches_credentials = false

unfoldable pub describe : Concern → String → String
describe not_known_safe tool = format ("`" ∷ tool ∷ "` is not a known read-only call" ∷ [])
describe touches_credentials tool = format (
    "`" ∷ tool ∷ "` names a credentials file, and anything it returns is sent to the model provider"
    ∷ [])
describe escapes_scope tool =
    format ("tool `" ∷ tool ∷ "` arguments reference a path outside the workspace" ∷ [])

module _ (codec : Codec) (lower : String → String) where
  abbrev pub string_list : Value → String → Option (List String)
  string_list section key = do
    found ← get section key
    values ← as_array found
    some (filter_map (λ v. Option.map lower (as_str v)) values)

  unfoldable pub from_config : Value → Policy
  from_config section = record {
    safe_calls = or_else (string_list section "safe-calls") default_safe_calls;
    allow_absolute_paths = or_else (get section "allow-absolute-paths" >>= as_bool) false;
    allow_parent_traversal = or_else (get section "allow-parent-traversal" >>= as_bool) false;
  }

  abbrev pub text_field : Value → String → Option String
  text_field value key = get value key >>= as_str

  -- The kind of a call that names no operation: by its program, or by the tool alone.
  abbrev pub command_key : String → Option String → String
  command_key name none = lower name
  command_key name (some command) =
      format (name ∷ ":" ∷ lower (base_name (first_or command (split_whitespace command))) ∷ [])

  abbrev pub op_key : String → Value → Option String → String
  op_key name value (some op) = format (name ∷ ":" ∷ lower op ∷ [])
  op_key name value none = command_key name (text_field value "command")

  unfoldable pub scope_key : String → String → String
  scope_key name arguments =
      let value = or_else (parsed (codec.from_str arguments)) null in
      op_key name value (text_field value "op")

  unfoldable pub is_known_safe : Policy → String → String → Bool
  is_known_safe policy name arguments =
      any (λ entry. str_eq entry (scope_key name arguments) || str_eq entry (lower name))
        policy.safe_calls

  abbrev pub any_path : (String → Bool) → Option Value → Bool
  any_path p none = false
  any_path p (some value) = any p (path_values lower value)

  unfoldable pub args_escape_scope : Policy → String → Bool
  args_escape_scope policy arguments =
      if policy.allow_absolute_paths && policy.allow_parent_traversal
      then false
      else any_path (path_escapes policy) (parsed (codec.from_str arguments) >>= as_object)

  unfoldable pub credential_name : String → Bool
  credential_name name =
      any (str_eq (lower name)) credential_names
      || any (ends_with (lower name)) credential_suffixes
      || starts_with (lower name) ".env."
      || starts_with (lower name) "id_ed25519"
      || starts_with (lower name) "id_ecdsa"

  unfoldable pub names_a_credential_file : String → Bool
  names_a_credential_file arguments =
      any_path (λ path. credential_name (base_name path)) (parsed (codec.from_str arguments))

  unfoldable pub review : Policy → String → String → Option Concern
  review policy name arguments =
      if args_escape_scope policy arguments
      then some escapes_scope
      else if names_a_credential_file arguments
      then some touches_credentials
      else if is_known_safe policy name arguments
      then none
      else some not_known_safe
