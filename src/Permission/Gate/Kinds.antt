-- ===== src/Permission/Gate/Kinds.antt =====
-- pkgs/extensions/interceptor-permission/src/rules.rs: the kind of a call, which a decision stands for.
use jan_klod.Common.{◌≡◌, refl, ap, ◌∙◌, String, [], ◌∷◌, none, some, format, ok, err}
use jan_klod.Json.{Codec, Value}
use jan_klod.Turn.{ToolCall}
use jan_klod.Permission.Paths.{split_whitespace, first_or, base_name}
use jan_klod.Permission.Rules.{Policy, not_known_safe, review, scope_key, text_field}

pub data Kind : Type 0 where
  operation : String → Kind
  program : String → Kind
  any_call : Kind

-- The kind that the arguments of a call have, by what they name: an operation, in lower case; if
-- none, the last component of the first word of a command, in lower case; or neither.
pub data HasKind (codec : Codec) (lower : String → String) (arguments : String)
    : Kind → Type 0 where
  names_operation :
      (v : Value) (op : String)
      → codec.from_str arguments ≡ ok v
      → text_field codec lower v "op" ≡ some op
      → HasKind codec lower arguments (operation (lower op))
  names_program :
      (v : Value) (command : String)
      → codec.from_str arguments ≡ ok v
      → text_field codec lower v "op" ≡ none
      → text_field codec lower v "command" ≡ some command
      → HasKind codec lower arguments
          (program (lower (base_name (first_or command (split_whitespace command)))))
  names_neither :
      (v : Value)
      → codec.from_str arguments ≡ ok v
      → text_field codec lower v "op" ≡ none
      → text_field codec lower v "command" ≡ none
      → HasKind codec lower arguments any_call
  unreadable :
      (e : String) → codec.from_str arguments ≡ err e → HasKind codec lower arguments any_call

-- What the decisions of a kind are stored under.
abbrev pub kind_key : (String → String) → String → Kind → String
kind_key lower tool (operation op) = format (tool ∷ ":" ∷ op ∷ [])
kind_key lower tool (program name) = format (tool ∷ ":" ∷ name ∷ [])
kind_key lower tool any_call = lower tool

-- A call of a tool and of a kind that the policy does not know to be safe.
pub record IsUnsafe (codec : Codec) (lower : String → String) (policy : Policy) (tool : String)
    (kind : Kind) (call : ToolCall) : Type 0 where
  pub named : call.name ≡ tool
  pub of_kind : HasKind codec lower call.arguments kind
  pub unsafe : review codec lower policy call.name call.arguments ≡ some not_known_safe

scope_key-HasKind :
    (codec : Codec) (lower : String → String) (tool arguments : String) (kind : Kind)
    → HasKind codec lower arguments kind
    → scope_key codec lower tool arguments ≡ kind_key lower tool kind
unfolding scope_key
scope_key-HasKind codec lower tool arguments _ (names_operation v op read named) =
    rw (read, named) refl
scope_key-HasKind codec lower tool arguments _ (names_program v command read unnamed named) =
    rw (read, unnamed, named) refl
scope_key-HasKind codec lower tool arguments _ (names_neither v read unnamed bare) =
    rw (read, unnamed, bare) refl
scope_key-HasKind codec lower tool arguments _ (unreadable e read) = rw read refl

pub scope_key-IsUnsafe :
    {codec : Codec} {lower : String → String} {policy : Policy} {tool : String} {kind : Kind}
    {call : ToolCall}
    → IsUnsafe codec lower policy tool kind call
    → scope_key codec lower call.name call.arguments ≡ kind_key lower tool kind
scope_key-IsUnsafe {codec} {lower} {kind = kind} {call = call} k =
    scope_key-HasKind codec lower call.name call.arguments kind k.of_kind
    ∙ ap (λ t. kind_key lower t kind) k.named
