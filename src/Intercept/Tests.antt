-- ===== src/Intercept/Tests.antt =====
-- Runs of the dispatcher of pkgs/host/protocol/src/intercept.rs, on a state that counts the prompts.
use jan_klod.Common.{
  ℕ, ◌+◌, ◌≡◌, refl, String, List, [], ◌∷◌, Option, none, some, str_eq, Result, ok, err,
  if◌then◌else◌,
}
use jan_klod.Turn.{UserPrompt, Driver}
use jan_klod.Intercept.Types.{
  Phase, HookState, Decision, InterceptorError, BlockReason, blocked, Interceptor,
}
use jan_klod.Intercept.Dispatch.{dispatch, settle, conclude, judge, advance, subscribes}
use jan_klod.Intercept.Passes.{Dispatches}
use jan_klod.Intercept.Passes.Sound.{dispatch-Dispatches}

abbrev question : UserPrompt
question = record { question = "Allow it?"; options = "yes" ∷ "no" ∷ []; default_answer = "no" }

-- Says yes, and counts.
abbrev yes_driver : Driver ℕ
yes_driver = record { ask = λ q n. ("yes", n + 1); follow_up = λ n. (none, n) }

abbrev reply_to : Option String → Result Decision InterceptorError
reply_to none = ok (Decision.ask question)
reply_to (some reply) =
    if str_eq reply "yes"
    then ok Decision.proceed
    else ok (Decision.block (record { message = "refused" }))

abbrev asker : Interceptor ℕ
asker = record {
  id = "asker";
  subscribed_phases = Phase.tool_call ∷ [];
  intercept = λ x n. (reply_to x.answer, n);
}

abbrev broken_interceptor : Interceptor ℕ
broken_interceptor = record {
  id = "broken";
  subscribed_phases = Phase.tool_call ∷ Phase.finalize ∷ [];
  intercept = λ x n. (err InterceptorError.internal, n);
}

abbrev pair : List (Interceptor ℕ)
pair = asker ∷ broken_interceptor ∷ []

abbrev call_state : HookState
call_state = HookState.tool_call (record { id = "1"; name = "shell"; arguments = "{}" })

abbrev closed : BlockReason
closed = record { message = "interceptor `broken` failed at tool-call; failing closed" }

dispatch_run :
    dispatch yes_driver Phase.tool_call 2 pair call_state 0 ≡ some ((blocked closed, call_state), 1)
unfolding dispatch settle conclude judge advance subscribes
dispatch_run = refl

dispatch_short_run : dispatch yes_driver Phase.tool_call 1 pair call_state 0 ≡ none
unfolding dispatch settle conclude judge advance subscribes
dispatch_short_run = refl

dispatch-Dispatches_example :
    Dispatches yes_driver Phase.tool_call (blocked closed) call_state 1 pair call_state 0
dispatch-Dispatches_example =
    dispatch-Dispatches yes_driver Phase.tool_call 2 pair call_state 0 (blocked closed) call_state 1
      dispatch_run
