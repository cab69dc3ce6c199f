-- ===== src/Conductor/Turns.antt =====
-- pkgs/host/agent/src/conductor.rs: the loop and `run_turn`.
use jan_klod.Common.{
  ℕ, zero, suc, ◌+◌, String, Bool, true, false, List, [], ◌∷◌, Option, none, some, Result, ok, err,
  is_empty, leb,
}
use jan_klod.Turn.{
  Message, ToolCall, continue, stop, assistant, user, Flow, warning, text_delta, done,
}
use jan_klod.Intercept.Types.{Phase, HookState, PendingRequest, Completion}
use jan_klod.Conductor.Effects.{M, ◌>>=◌, pure, lift, Parts, Limits, dispatch_phase, emit}
use jan_klod.Conductor.Provider.{push_message, complete_validated}
use jan_klod.Conductor.Tools.{ToolPass, run_tool_calls}
use jan_klod.Conductor.Phases.{
  prepared, disconnected, plain_message, shape, post_phase, note_incomplete, cut_short,
  build_initial_request,
}

pub data RunResult : Type 0 where
  answered : String → Bool → RunResult
  failed : String → RunResult

-- How one round of the loop ends: the next round's request and count, or the turn's end.
pub data Step : Type 0 where
  again : PendingRequest → ℕ → Step
  finish : String → Step
  give_up : String → Step

module _ {W : Type 0} (p : Parts W) where
  -- `if iterations >= limits.max_iterations`: a turn that has reached its cap is cut short.
  unfoldable pub unless_capped : Limits → String → Bool → M W Step → M W Step
  unless_capped limits final_text true more = do
    text ← cut_short p final_text limits.max_iterations
    pure (finish text)
  unless_capped limits final_text false more = more

  abbrev pub is_capped : Limits → ℕ → Bool
  is_capped limits iterations = leb limits.max_iterations iterations

  unfoldable pub follow : Limits → String → PendingRequest → ℕ → Option String → M W Step
  follow limits final_text request iterations none = pure (finish final_text)
  follow limits final_text request iterations (some message) = do
    (_, state) ← dispatch_phase p Phase.prepare_next_turn (HookState.prepare_next_turn request)
    let request1 = push_message (prepared request state) (plain_message user message)
    unless_capped limits final_text (is_capped limits (iterations + 1))
        (pure (again request1 (iterations + 1)))

  unfoldable pub handle_no_tool_calls : Limits → String → PendingRequest → ℕ → M W Step
  handle_no_tool_calls limits final_text request iterations = do
    follow_up ← lift p.driver.follow_up
    follow limits final_text request iterations follow_up

  unfoldable pub after_tool_calls : ToolPass → String → PendingRequest → ℕ → M W Step
  after_tool_calls ToolPass.continue text request iterations = pure (again request iterations)
  after_tool_calls ToolPass.terminated text request iterations = pure (finish text)
  after_tool_calls ToolPass.cancelled text request iterations = do
    noted ← note_incomplete p text disconnected
    pure (finish noted)

  -- The branch of an answer that calls tools.
  unfoldable pub handle_tool_calls : Limits → List ToolCall → String → PendingRequest → ℕ → M W Step
  handle_tool_calls limits calls text request iterations =
      unless_capped limits text (is_capped limits iterations) do
        (pass, request1) ← run_tool_calls p calls ToolPass.continue request
        after_tool_calls pass text request1 iterations

  unfoldable pub handle_answer : Limits → List ToolCall → String → PendingRequest → ℕ → M W Step
  handle_answer limits [] text request iterations =
      handle_no_tool_calls limits text request iterations
  handle_answer limits (call ∷ calls) text request iterations =
      handle_tool_calls limits (call ∷ calls) text request (iterations + 1)

  -- An empty text is not sent, and cannot stop the turn.
  unfoldable pub send_text : Bool → String → M W Flow
  send_text true text = pure Flow.continue
  send_text false text = emit p (text_delta text)

  unfoldable pub after_text : Limits → List ToolCall → String → PendingRequest → ℕ → Flow → M W Step
  after_text limits calls text request iterations stop = do
    noted ← note_incomplete p text disconnected
    pure (finish noted)
  after_text limits calls text request iterations continue =
      handle_answer limits calls text request iterations

  unfoldable pub after_completion :
      Limits → PendingRequest → ℕ → Result Completion String → M W Step
  after_completion limits request iterations (err reason) = do
    _ ← emit p (warning reason)
    pure (give_up reason)
  after_completion limits request iterations (ok completion) = do
    text ← post_phase p Phase.after_response completion.text
    flow ← send_text (is_empty text) text
    after_text limits completion.tool_calls text
        (push_message request (plain_message assistant text)) iterations flow

  -- The body of the `loop`.
  unfoldable pub round : Limits → PendingRequest → ℕ → M W Step
  round limits request iterations = do
    result ← lift (complete_validated p request)
    after_completion limits request iterations result

  unfoldable pub after_round :
      (PendingRequest → ℕ → M W (Result String String)) → Step → M W (Result String String)
  after_round next (again request iterations) = next request iterations
  after_round next (finish text) = pure (ok text)
  after_round next (give_up reason) = pure (err reason)

  -- The `loop`, by fuel for its rounds.
  unfoldable pub turn_loop : ℕ → Limits → PendingRequest → ℕ → M W (Result String String)
  turn_loop zero limits request iterations = λ w. none
  turn_loop (suc fuel) limits request iterations = do
    step ← round limits request iterations
    after_round (turn_loop fuel limits) step

  unfoldable pub shape_then :
      (PendingRequest → M W (Result PendingRequest String))
      → Result PendingRequest String
      → M W (Result PendingRequest String)
  shape_then next (ok request) = next request
  shape_then next (err reason) = pure (err reason)

  unfoldable pub shape_all : List Phase → PendingRequest → M W (Result PendingRequest String)
  shape_all [] request = pure (ok request)
  shape_all (phase ∷ phases) request = do
    result ← shape p phase request
    shape_then (shape_all phases) result

  abbrev pub shaping_phases : Bool → List Phase
  shaping_phases true = Phase.select_model ∷ Phase.select_context ∷ Phase.select_tools ∷ []
  shaping_phases false = []

  -- The end of `run_turn`, after the loop.
  unfoldable pub finish_turn : Bool → Result String String → M W RunResult
  finish_turn agentic (err reason) = pure (failed reason)
  finish_turn agentic (ok final_text) = do
    text ← post_phase p Phase.finalize final_text
    _ ← emit p (done text agentic)
    pure (answered text agentic)

  unfoldable pub run_shaped : ℕ → Limits → Bool → Result PendingRequest String → M W RunResult
  run_shaped loop_fuel limits agentic (err reason) = pure (failed reason)
  run_shaped loop_fuel limits agentic (ok request) = do
    result ← turn_loop loop_fuel limits request 0
    finish_turn agentic result

  unfoldable pub run_turn :
      ℕ → Limits → String → String → List Message → Option String → (String → W → W) → M W RunResult
  run_turn loop_fuel limits session message history principal on_effective_message = do
    _ ← lift (λ w. (tt, p.tools.bind_session session w))
    (agentic, request) ←
        build_initial_request p session message history principal on_effective_message
    shaped_request ← shape_all (shaping_phases agentic) request
    run_shaped loop_fuel limits agentic shaped_request
