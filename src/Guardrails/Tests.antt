-- ===== src/Guardrails/Tests.antt =====
-- pkgs/extensions/interceptor-guardrails on concrete rules. The engine of the tests finds a pattern
-- where it is the whole text.
use jan_klod.Common.{
  ℕ, ◌+◌, map, ◌≡◌, ◌⊎◌, ◌≢◌, refl, String, [], ◌∷◌, Option, none, some, ok, err, str_eq, All,
  if◌then◌else◌,
}
use jan_klod.Json.{Value, object, array, string, end, field, nil, item}
use jan_klod.Turn.{Role, Driver}
use jan_klod.Intercept.Types.{
  Phase, PendingRequest, HookState, Decision, BlockReason, Outcome, proceeded, blocked, Interceptor,
}
use jan_klod.Intercept.Dispatch
use jan_klod.Intercept.Dispatch.{
  Judgement, ends, judge, dispatch, settle, conclude, subscribes, advance,
}
use jan_klod.Guardrails.Rules.{
  Act, TextAct, RuleError, Engine, DenyRule, TextRule, Rules, redacted, parse_act, parse_text_act,
  collect, compile, tool_rule, text_rule, from_config, review_text, refuses, redact_all,
}
use jan_klod.Guardrails.Component.{guard_state, guardrails_interceptor}
use jan_klod.Guardrails.Redacts.{Reviewed, review_text-Reviewed}
use jan_klod.Guardrails.Context.{Clear, clean_message, guard_state-context}
use jan_klod.Guardrails.Closed.{dispatch-broken_rules}

abbrev engine : Engine String
engine = record {
  new = λ p. if str_eq p "[" then none else some p;
  is_match = λ p text. str_eq p text;
  replace_all = λ p text with_text. if str_eq p text then with_text else text;
}

abbrev deploy : DenyRule String
deploy = record { pattern = "deploy"; tool = some "shell"; reason = "ask first"; act = Act.ask }

abbrev secret : TextRule String
secret = record {
  pattern = "secret";
  with_text = "[redacted]";
  reason = "a secret";
  act = TextAct.block;
}

abbrev name : TextRule String
name = record { pattern = "alice"; with_text = "A"; reason = "a name"; act = TextAct.replace }

abbrev rules : Rules String
rules = record { deny_tool_arguments = deploy ∷ []; redact = name ∷ secret ∷ [] }

abbrev section : Value
section = object (
    field "deny-tool-arguments"
      (array (
        item
          (object (
            field "pattern" (string "deploy") (
              field "tool" (string "shell")
                (field "reason" (string "ask first") (field "decision" (string "ask") end)))))
          nil))
      (field "redact"
        (array (
          item
            (object (
              field "pattern" (string "alice")
                (field "with" (string "A") (field "reason" (string "a name") end))))
            (item
              (object (
                field "pattern" (string "secret")
                  (field "reason" (string "a secret") (field "decision" (string "block") end))))
              nil)))
        end))

section_reads : from_config engine section ≡ ok rules
unfolding from_config collect tool_rule text_rule compile parse_act parse_text_act
section_reads = refl

bad_pattern :
    from_config engine
      (object (field "redact" (array (item (object (field "pattern" (string "[") end)) nil)) end))
    ≡ err (RuleError.pattern "[")
unfolding from_config collect text_rule compile
bad_pattern = refl

text_reviewed : review_text engine rules "alice" ≡ some (redacted "A")
unfolding review_text refuses redact_all
text_reviewed = refl

review_text-Reviewed_example :
    Reviewed engine rules.redact "alice" (review_text engine rules "alice")
review_text-Reviewed_example = review_text-Reviewed engine rules "alice"

abbrev request : PendingRequest
request = record {
  model = none;
  messages = record { role = Role.user; content = "alice"; tool_call_id = none } ∷ [];
  tools = [];
  grammar = none;
  max_tokens = none;
  temperature = none;
}

guard_state-context_example :
    (All (Clear engine rules) request.messages
      × (judge Phase.select_context "guard"
            (HookState.select_context request)
            (guard_state engine (ok rules) none (HookState.select_context request))
          ≡ ends (
              Dispatch.settled (
                HookState.select_context (record request {
                  messages = map (clean_message engine rules) request.messages;
                })))))
    ⊎ ((All (Clear engine rules) request.messages → ⊥)
        × ((reason : BlockReason) × (judge Phase.select_context "guard"
                (HookState.select_context request)
                (guard_state engine (ok rules) none (HookState.select_context request))
              ≡ ends (Dispatch.refused reason))))
guard_state-context_example = guard_state-context engine rules "guard" none request

abbrev silent : Driver ℕ
silent = record { ask = λ prompt w. ("", w); follow_up = λ w. (none, w) }

abbrev lenient : Interceptor ℕ
lenient = record {
  id = "lenient";
  subscribed_phases = Phase.tool_call ∷ [];
  intercept = λ input w. (ok Decision.proceed, w + 1);
}

abbrev call : HookState
call = HookState.tool_call (record { id = "1"; name = "shell"; arguments = "ls" })

abbrev broken_dispatch : Option ((Outcome × HookState) × ℕ)
broken_dispatch =
    dispatch silent Phase.tool_call 3
      (lenient ∷ guardrails_interceptor engine (err RuleError.missing_pattern) ∷ lenient ∷ []) call
      0

abbrev broken_outcome : Outcome
broken_outcome = blocked (record {
  message = "interceptor `interceptor-guardrails` failed at tool-call; failing closed";
})

broken_dispatch_run : broken_dispatch ≡ some ((broken_outcome, call), 1)
unfolding dispatch subscribes settle conclude judge advance guardrails_interceptor guard_state
broken_dispatch_run = refl

dispatch-broken_rules_example : broken_outcome ≢ proceeded
dispatch-broken_rules_example =
    dispatch-broken_rules engine silent 3 RuleError.missing_pattern (lenient ∷ []) (lenient ∷ [])
      call 0 broken_outcome call 1 broken_dispatch_run
