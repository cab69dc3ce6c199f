-- ===== src/Conductor/Tools.antt =====
-- pkgs/host/agent/src/conductor.rs: running the tool calls of one answer.
use jan_klod.Common.{String, true, List, [], ◌∷◌, Option, none, some, format, if◌then◌else◌}
use jan_klod.Turn.{ToolCall, ToolOutcome, tool, warning, tool_invoked, tool_result}
use jan_klod.Intercept.Types.{
  Phase, HookState, Outcome, proceeded, blocked, PendingRequest, ToolInvocation,
}
use jan_klod.Conductor.Effects.{M, ◌>>=◌, pure, lift, Parts, dispatch_phase, emit, is_stop}
use jan_klod.Conductor.Provider.{push_message}

pub data ToolPass : Type 0 where
  continue terminated cancelled : ToolPass

-- The call that a `tool-call` dispatch leaves in its state.
abbrev pub effective_call : ToolCall → HookState → ToolCall
effective_call call (HookState.tool_call c) = c
effective_call call s = call

abbrev pub result_outcome : ToolCall → HookState → ToolOutcome
result_outcome call (HookState.tool_result outcome) = outcome
result_outcome call s = record { tool_call_id = call.id; content = ""; failed = true }

-- `unwrap_or_else` at a call that no tool took.
abbrev pub or_no_tool : ToolCall → Option ToolInvocation → ToolInvocation
or_no_tool call (some i) = i
or_no_tool call none = record {
  content = format ("no tool named `" ∷ call.name ∷ "`" ∷ []);
  failed = true;
}

abbrev pub denied : String → ToolInvocation
denied reason = record { content = format ("tool call denied: " ∷ reason ∷ []); failed = true }

module _ {W : Type 0} (p : Parts W) where
  -- The `match` on the dispatch of `tool-call`: what the model is told, and whether to stop.
  unfoldable pub gated_invoke :
      ToolCall → ToolPass → Outcome × HookState → M W (ToolInvocation × ToolPass)
  gated_invoke call stop (blocked reason, state) = do
    _ ← emit p (warning (format ("tool `" ∷ call.name ∷ "` denied: " ∷ reason.message ∷ [])))
    pure (denied reason.message, stop)
  gated_invoke call stop (proceeded, state) = do
    let effective = effective_call call state
    flow ← emit p (tool_invoked effective)
    found ← lift (p.tools.invoke_asking effective p.driver)
    pure (or_no_tool effective found, if is_stop flow then cancelled else stop)

  -- `Outcome::Blocked(_)` at `tool-result` ends the pass.
  abbrev pub after_result : Outcome → ToolPass → ToolPass
  after_result proceeded stop = stop
  after_result (blocked _) stop = terminated

  -- The body of the loop, from the call to the message that answers it.
  unfoldable pub run_tool_call :
      ToolCall → ToolPass → PendingRequest → M W (ToolPass × PendingRequest)
  run_tool_call call stop request = do
    gate ← dispatch_phase p Phase.tool_call (HookState.tool_call call)
    (invocation, stop1) ← gated_invoke call stop gate
    (verdict, state) ← dispatch_phase p Phase.tool_result (
        HookState.tool_result (record {
          tool_call_id = call.id;
          content = invocation.content;
          failed = invocation.failed;
        }))
    let outcome = result_outcome call state
    flow ← emit p (tool_result outcome)
    let stop2 = after_result verdict stop1
    pure (
      (if is_stop flow then cancelled else stop2),
      push_message request
          (record { role = tool; content = outcome.content; tool_call_id = some call.id }),
    )

  unfoldable pub run_tool_calls :
      List ToolCall → ToolPass → PendingRequest → M W (ToolPass × PendingRequest)
  run_tool_calls [] stop request = pure (stop, request)
  run_tool_calls (call ∷ calls) stop request = do
    (stop1, request1) ← run_tool_call call stop request
    run_tool_calls calls stop1 request1
