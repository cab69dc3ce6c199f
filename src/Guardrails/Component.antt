-- ===== src/Guardrails/Component.antt =====
-- pkgs/extensions/interceptor-guardrails/src/lib.rs: the interceptor. What it logs is left out.
use jan_klod.Common.{
  ℕ, String, Bool, true, false, ◌&&◌, ◌+◌, List, [], ◌∷◌, map, Option, none, some, find, all,
  format, trim, leb, ◌==◌, Result, ok, err, if◌then◌else◌,
}
use mathlib.Core.Option
use Prim.Native.Char.{Char, code}
use jan_klod.Json.{Codec, null}
use jan_klod.Turn.{Message, ToolCall, UserPrompt}
use jan_klod.Intercept.Types.{
  Phase, PendingRequest, HookState, Decision, InterceptorError, Interceptor,
}
use jan_klod.Permission.Rules.{or_else, parsed}
use jan_klod.Guardrails.Rules.{
  Act, RuleError, Verdict, TextVerdict, redacted, blocked, Engine, Rules, from_config,
  review_tool_call, review_text,
}

-- `eq_ignore_ascii_case` with a text in lower case.
abbrev pub lower_code : Char → ℕ
lower_code c = if leb 65 (code c) && leb (code c) 90 then code c + 32 else code c

unfoldable pub is_ascii_word : String → String → Bool
is_ascii_word String.[] String.[] = true
is_ascii_word String.[] (String.◌∷◌ d t) = false
is_ascii_word (String.◌∷◌ c s) String.[] = false
is_ascii_word (String.◌∷◌ c s) (String.◌∷◌ d t) = lower_code c == code d && is_ascii_word s t

unfoldable pub guard_prompt : String → String → UserPrompt
guard_prompt tool reason = record {
  question = format ("Allow `" ∷ tool ∷ "`? (a guardrail matched: " ∷ reason ∷ ")" ∷ []);
  options = "yes" ∷ "no" ∷ [];
  default_answer = "no";
}

abbrev pub refusal : List String → Decision
refusal pieces = Decision.block (record { message = format pieces })

-- What a rule that fires comes to, without an answer or with one.
unfoldable pub judge_fired : ToolCall → String → Act → Option String → Decision
judge_fired call reason Act.block answer =
    refusal ("`" ∷ call.name ∷ "` was refused by a guardrail: " ∷ reason ∷ [])
judge_fired call reason Act.ask none = Decision.ask (guard_prompt call.name reason)
judge_fired call reason Act.ask (some answer) =
    if is_ascii_word (trim answer) "yes"
    then Decision.proceed
    else refusal ("`" ∷ call.name ∷ "` was refused: " ∷ reason ∷ [])

unfoldable pub judge_call : ToolCall → Option String → Option Verdict → Decision
judge_call call answer none = Decision.proceed
judge_call call answer (some verdict) = judge_fired call verdict.reason verdict.act answer

-- A reviewed text: it stands, it is rewritten, or it is refused.
abbrev pub judge_text : (String → HookState) → String → Option TextVerdict → Decision
judge_text rewritten what none = Decision.proceed
judge_text rewritten what (some (redacted text)) = Decision.replace (rewritten text)
judge_text rewritten what (some (blocked reason)) =
    refusal (what ∷ " was refused by a guardrail: " ∷ reason ∷ [])

abbrev pub is_blocked : Option TextVerdict → Bool
is_blocked none = false
is_blocked (some (redacted text)) = false
is_blocked (some (blocked reason)) = true

abbrev pub is_none : Option TextVerdict → Bool
is_none none = true
is_none (some v) = false

abbrev pub redact_message : Message → Option TextVerdict → Message
redact_message message (some (redacted content)) = record message { content = content }
redact_message message (some (blocked reason)) = message
redact_message message none = message

-- `zip` and `map`.
unfoldable pub redact_messages : List Message → List (Option TextVerdict) → List Message
redact_messages (message ∷ messages) (verdict ∷ verdicts) =
    redact_message message verdict ∷ redact_messages messages verdicts
redact_messages (message ∷ messages) [] = []
redact_messages [] verdicts = []

unfoldable pub rewrite_context : PendingRequest → List (Option TextVerdict) → Decision
rewrite_context request reviewed =
    if all is_none reviewed
    then Decision.proceed
    else Decision.replace (
        HookState.select_context
          (record request { messages = redact_messages request.messages reviewed }))

abbrev pub refuse_context : Decision → Option TextVerdict → Decision
refuse_context rest (some (blocked reason)) =
    refusal ("the request was refused by a guardrail: " ∷ reason ∷ [])
refuse_context rest (some (redacted text)) = rest
refuse_context rest none = rest

-- The first of the verdicts that refuses.
abbrev pub first_blocked : List (Option TextVerdict) → Option TextVerdict
first_blocked reviewed = Option.bind (find is_blocked reviewed) (λ verdict. verdict)

unfoldable pub judge_context : PendingRequest → List (Option TextVerdict) → Decision
judge_context request reviewed =
    refuse_context (rewrite_context request reviewed) (first_blocked reviewed)

module _ {R : Type 0} (engine : Engine R) where
  -- `load_rules`, of the section that `host_config::all` gave, if it could be read.
  unfoldable pub load_rules : Codec → Option String → Result (Rules R) RuleError
  load_rules codec raw =
      from_config engine (or_else (parsed (codec.from_str (or_else raw "{}"))) null)

  abbrev pub with_rules :
      {T : Type 0} → Result (Rules R) RuleError → (Rules R → T) → Result T InterceptorError
  with_rules (ok rules) read = ok (read rules)
  with_rules (err e) read = err InterceptorError.internal

  unfoldable pub guard_state :
      Result (Rules R) RuleError → Option String → HookState → Result Decision InterceptorError
  guard_state rules answer (HookState.tool_call call) =
      with_rules rules
        (λ r. judge_call call answer (review_tool_call engine r call.name call.arguments))
  guard_state rules answer (HookState.after_response response) = with_rules rules (λ r.
      judge_text (λ text. HookState.after_response (record response { text = text })) "the response"
        (review_text engine r response.text))
  guard_state rules answer (HookState.finalize final) = with_rules rules (λ r.
      judge_text (λ text. HookState.finalize (record { text = text })) "the answer"
        (review_text engine r final.text))
  guard_state rules answer (HookState.select_context request) =
      with_rules rules
        (λ r. judge_context request (map (λ m. review_text engine r m.content) request.messages))
  guard_state rules answer state = err InterceptorError.invalid_state

  unfoldable pub guardrails_interceptor : {W : Type 0} → Result (Rules R) RuleError → Interceptor W
  guardrails_interceptor rules = record {
    id = "interceptor-guardrails";
    subscribed_phases =
        Phase.select_context ∷ Phase.after_response ∷ Phase.tool_call ∷ Phase.finalize ∷ [];
    intercept = λ input w. (guard_state rules input.answer input.state, w);
  }
