-- ===== src/Conductor/Tests.antt =====
-- Runs of pkgs/host/agent/src/conductor.rs: two tool calls, of which the gate refuses one, then an answer.
pub mod NoRm
use jan_klod.Common.{
  All-append, sym, ◌∙◌, subst, ℕ, zero, suc, ◌+◌, ◌*◌, ◌/◌, ◌≤◌, ◌≡◌, ◌≢◌, refl, ap, String, Bool,
  true, false, List, [], ◌∷◌, ◌++◌, Option, none, some, str_eq, Result, ok, err, arith, All, length,
  if◌then◌else◌, ◌||◌,
}
use jan_klod.Json.{Codec, Value, null}
use jan_klod.Turn.{
  ToolCall, ToolOutcome, Message, Event, UserPrompt, Driver, EventSink, Flow, continue, done, tool,
  text_delta, tool_invoked, tool_result, warning,
}
use jan_klod.Intercept.Types.{
  Phase, phase_index, HookState, Decision, InterceptorError, BlockReason, InterceptInput, Outcome,
  proceeded, blocked, Interceptor, Completer, ToolInvoker, PendingRequest, Completion,
  was_truncated,
}
use jan_klod.Intercept.Dispatch.{
  Verdict, settled, refused, dispatch, settle, conclude, judge, advance, subscribes,
}
use jan_klod.Intercept.Passes.{
  Settles, proceeds, replaces, blocks, fails_closed, fails_open, asks, Dispatches, end, skip, pass,
  refuse,
}
use jan_klod.Intercept.Halts.{IsDecisive}
use jan_klod.Conductor.Effects.{Parts, Limits, default_limits, continue_with, ◌>>=◌}
use jan_klod.Conductor.Provider.{
  validate, fallback_loop, fallback_from, complete_with_fallback, warn_truncated, check_completion,
  attempt, retry_loop, complete_validated,
}
use jan_klod.Conductor.Tools.{ToolPass, effective_call, gated_invoke, run_tool_call, run_tool_calls}
use jan_klod.Conductor.Phases.{
  shape_from, shape, post_phase_from, post_phase, note_incomplete, cut_short, build_initial_request,
}
use jan_klod.Conductor.Turns.{
  RunResult, answered, failed, unless_capped, follow, handle_no_tool_calls, after_tool_calls,
  handle_tool_calls, handle_answer, send_text, after_text, after_completion, round, after_round,
  turn_loop, shape_then, shape_all, finish_turn, run_shaped, run_turn,
}
use jan_klod.Conductor.Answers.{Answers, run_tool_calls-Answers}
use jan_klod.Conductor.Halts.{Settling, run_turn_returns}
use jan_klod.Conductor.Clearance.{IsCleared, Keeps}
use jan_klod.Conductor.Clearance.Turn.{run_turn-IsCleared}
use jan_klod.Conductor.Fallback.{
  FallsBack, complete_with_fallback-FallsBack, HasJson, complete_validated-HasJson,
}
use jan_klod.Conductor.Cost.{complete_validated_cost}
use jan_klod.Conductor.Ending.{run_turn-EndsTold}

-- How many completions were asked for, the tools that ran, and what the client was told.
pub record World : Type 0 where
  pub calls : ℕ
  pub ran : List String
  pub told : List Event

abbrev pub start : World
start = record { calls = 0; ran = []; told = [] }

abbrev ls : ToolCall
ls = record { id = "1"; name = "ls"; arguments = "{}" }

abbrev rm : ToolCall
rm = record { id = "2"; name = "rm"; arguments = "{}" }

abbrev script : ℕ → Completion
script zero = record { text = ""; tool_calls = ls ∷ rm ∷ []; finish_reason = "tool_calls" }
script (suc n) = record { text = "All done."; tool_calls = []; finish_reason = "stop" }

abbrev called : World → World
called w = record w { calls = w.calls + 1 }

abbrev flaky : Completer World
flaky = record { id = "flaky"; complete = λ r w. (err "no route", called w) }

abbrev steady : Completer World
steady = record { id = "steady"; complete = λ r w. (ok (script (w.calls / 2)), called w) }

abbrev pub judged : HookState → Result Decision InterceptorError
judged (HookState.tool_call c) =
    if str_eq c.name "rm"
    then ok (Decision.block (record { message = "not here" }))
    else ok Decision.proceed
judged s = ok Decision.proceed

abbrev pub guard : Interceptor World
guard = record {
  id = "guard";
  subscribed_phases = Phase.tool_call ∷ [];
  intercept = λ x w. (judged x.state, w);
}

abbrev sink : EventSink World
sink = record { emit = λ e w. (continue, record w { told = w.told ++ e ∷ [] }) }

abbrev codec : Codec
codec = record { from_str = λ s. ok null; to_string = λ v. "null" }

abbrev pub parts : Parts World
parts = record {
  interceptors = guard ∷ [];
  providers = flaky ∷ steady ∷ [];
  tools = record {
    bind_session = λ s w. w;
    invoke_asking = λ c d w. (
      some (record { content = "src"; failed = false }),
      record w { ran = w.ran ++ c.name ∷ [] },
    );
  };
  driver = record { ask = λ q w. ("yes", w); follow_up = λ w. (none, w) };
  sink = sink;
  codec = codec;
  ask_fuel = 2;
}

abbrev request : PendingRequest
request = record {
  model = none;
  messages = [];
  tools = [];
  grammar = none;
  max_tokens = none;
  temperature = none;
}

abbrev pub run : Option (RunResult × World)
run = run_turn parts 64 default_limits "s" "Tidy up." [] none (λ text w. w) start

abbrev falls_back : Event
falls_back = warning "provider flaky: no route; falling back"

-- What the client is told of the first answer.
abbrev first_round : List Event
first_round =
    falls_back
    ∷ tool_invoked ls
    ∷ tool_result (record { tool_call_id = "1"; content = "src"; failed = false })
    ∷ warning "tool `rm` denied: not here"
    ∷ tool_result
        (record { tool_call_id = "2"; content = "tool call denied: not here"; failed = true })
    ∷ []

abbrev pub final : World
final = record {
  calls = 4;
  ran = "ls" ∷ [];
  told = first_round ++ falls_back ∷ text_delta "All done." ∷ done "All done." true ∷ [];
}

pub run_result : run ≡ some (answered "All done." true, final)
unfolding run_turn build_initial_request shape_all shape_then shape shape_from run_shaped turn_loop
    round after_round after_completion after_text send_text handle_answer handle_tool_calls
    after_tool_calls handle_no_tool_calls follow unless_capped cut_short note_incomplete finish_turn
    post_phase post_phase_from run_tool_calls run_tool_call gated_invoke complete_validated
    retry_loop attempt check_completion warn_truncated complete_with_fallback fallback_from
    fallback_loop validate dispatch settle conclude judge advance subscribes was_truncated
    continue_with ◌>>=◌
run_result = refl

judged-ne-ask : (s : HookState) (q : UserPrompt) → judged s ≢ ok (Decision.ask q)
judged-ne-ask (HookState.tool_call c) q = ground arith
judged-ne-ask (HookState.before_loop t) q = λ e. cc
judged-ne-ask (HookState.select_model r) q = λ e. cc
judged-ne-ask (HookState.select_context r) q = λ e. cc
judged-ne-ask (HookState.select_tools r) q = λ e. cc
judged-ne-ask (HookState.after_response r) q = λ e. cc
judged-ne-ask (HookState.tool_result o) q = λ e. cc
judged-ne-ask (HookState.finalize a) q = λ e. cc
judged-ne-ask (HookState.prepare_next_turn r) q = λ e. cc

pub parts-Settling : Settling parts
parts-Settling = record {
  decisive = ((λ phase s reply w q. judged-ne-ask s q), tt);
  fuelled = omega arith;
}

run_turn_returns_example : (r : RunResult) × (w' : World) × (run ≡ some (r, w'))
run_turn_returns_example =
    run_turn_returns {p = parts} parts-Settling 64 default_limits "s" "Tidy up." [] none
      (λ text w. w) start (omega arith) (omega arith)

run_turn-EndsTold_example :
    (u : World) × (final ≡ record u { told = u.told ++ done "All done." true ∷ [] })
run_turn-EndsTold_example =
    run_turn-EndsTold parts 64 default_limits "s" "Tidy up." [] none (λ text w. w) start final
      "All done." true run_result

complete_with_fallback-FallsBack_example :
    FallsBack parts request parts.providers [] start
      (complete_with_fallback parts request start).0
      (complete_with_fallback parts request start).1
complete_with_fallback-FallsBack_example =
    complete_with_fallback-FallsBack parts request start (λ e. cc)

complete_result :
    complete_validated parts request start
    ≡ (ok (script 0), record { calls = 2; ran = []; told = falls_back ∷ [] })
unfolding complete_validated retry_loop attempt check_completion warn_truncated
    complete_with_fallback fallback_from fallback_loop validate was_truncated
complete_result = refl

complete_validated-HasJson_example : HasJson codec (ls ∷ rm ∷ [])
complete_validated-HasJson_example =
    complete_validated-HasJson parts request start
      (record { calls = 2; ran = []; told = falls_back ∷ [] }) (script 0) complete_result

-- A provider before `steady` that never answers, and is not counted.
abbrev absent : Completer World
absent = record { id = "absent"; complete = λ r w. (err "no route", w) }

abbrev counted_parts : Parts World
counted_parts = record parts { providers = absent ∷ steady ∷ [] }

complete_validated_cost_example :
    (complete_validated counted_parts request start).1.calls ≤ start.calls + 4
complete_validated_cost_example =
    complete_validated_cost counted_parts (absent ∷ []) [] steady refl (λ w. w.calls)
      (λ r w. omega arith) ((λ r w. omega arith), tt) tt (λ e w. refl) request start

abbrev message_of : String → String → Message
message_of id content = record { role = tool; content = content; tool_call_id = some id }

abbrev answered_request : PendingRequest
answered_request = record request {
  messages = message_of "1" "src" ∷ message_of "2" "tool call denied: not here" ∷ [];
}

abbrev after_tools : World
after_tools = record {
  calls = 0;
  ran = "ls" ∷ [];
  told =
      tool_invoked ls
      ∷ tool_result (record { tool_call_id = "1"; content = "src"; failed = false })
      ∷ warning "tool `rm` denied: not here"
      ∷ tool_result
          (record { tool_call_id = "2"; content = "tool call denied: not here"; failed = true })
      ∷ [];
}

tools_result :
    run_tool_calls parts (ls ∷ rm ∷ []) ToolPass.continue request start
    ≡ some ((ToolPass.continue, answered_request), after_tools)
unfolding run_tool_calls run_tool_call gated_invoke dispatch settle conclude judge advance
    subscribes continue_with ◌>>=◌
tools_result = refl

run_tool_calls-Answers_example :
    (ms : List Message) × Answers (ls ∷ rm ∷ []) ms
    × (answered_request ≡ record request { messages = [] ++ ms })
run_tool_calls-Answers_example =
    run_tool_calls-Answers parts (ls ∷ rm ∷ []) ToolPass.continue ToolPass.continue request
      answered_request start after_tools tools_result
