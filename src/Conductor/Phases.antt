-- ===== src/Conductor/Phases.antt =====
-- pkgs/host/agent/src/conductor.rs: the phases of a turn around its loop, and the notes on an unfinished answer.
use jan_klod.Common.{
  ℕ, String, Bool, true, false, List, [], ◌∷◌, ◌++◌, Option, none, some, Result, ok, err, format,
  decimal, trim, is_empty, if◌then◌else◌,
}
use jan_klod.Turn.{
  Event, Message, ToolCall, continue, stop, assistant, user, Flow, warning, text_delta, done,
}
use jan_klod.Turn
use jan_klod.Intercept.Types.{Phase, HookState, Outcome, proceeded, blocked, PendingRequest}
use jan_klod.Conductor.Effects.{M, ◌>>=◌, pure, lift, Parts, dispatch_phase, emit}

-- `Debug` of a phase.
abbrev pub phase_name : Phase → String
phase_name Phase.before_loop = "BeforeLoop"
phase_name Phase.select_model = "SelectModel"
phase_name Phase.select_context = "SelectContext"
phase_name Phase.select_tools = "SelectTools"
phase_name Phase.after_response = "AfterResponse"
phase_name Phase.tool_call = "ToolCall"
phase_name Phase.tool_result = "ToolResult"
phase_name Phase.finalize = "Finalize"
phase_name Phase.prepare_next_turn = "PrepareNextTurn"

-- The state that a shaping phase starts from; `none` for the phases that `shape` rejects.
abbrev pub shaping_state : Phase → PendingRequest → Option HookState
shaping_state Phase.select_model r = some (HookState.select_model r)
shaping_state Phase.select_context r = some (HookState.select_context r)
shaping_state Phase.select_tools r = some (HookState.select_tools r)
shaping_state _ r = none

abbrev pub shaped : HookState → Result PendingRequest String
shaped (HookState.select_model r) = ok r
shaped (HookState.select_context r) = ok r
shaped (HookState.select_tools r) = ok r
shaped _ = err "interceptor replaced shaping state with the wrong case"

abbrev pub shape_result : Outcome × HookState → Result PendingRequest String
shape_result (blocked reason, state) = err reason.message
shape_result (proceeded, state) = shaped state

-- The state that a text phase starts from; `none` for the phases that pass the text on.
abbrev pub text_state : Phase → String → Option HookState
text_state Phase.after_response text =
    some (HookState.after_response (record { text = text; finish_reason = "stop" }))
text_state Phase.finalize text = some (HookState.finalize (record { text = text }))
text_state _ text = none

abbrev pub text_of : HookState → String
text_of (HookState.after_response r) = r.text
text_of (HookState.finalize a) = a.text
text_of _ = ""

abbrev pub user_turn_message : String → HookState → String
user_turn_message message (HookState.before_loop turn) = turn.user_message
user_turn_message message _ = message

abbrev pub prepared : PendingRequest → HookState → PendingRequest
prepared request (HookState.prepare_next_turn r) = r
prepared request _ = request

abbrev pub is_proceeded : Outcome → Bool
is_proceeded proceeded = true
is_proceeded (blocked _) = false

abbrev pub disconnected : String
disconnected = "stopped before the turn finished — the client disconnected or cancelled"

abbrev pub plain_message : Turn.Role → String → Message
plain_message role text = record { role = role; content = text; tool_call_id = none }

module _ {W : Type 0} (p : Parts W) where
  unfoldable pub shape_from : Phase → Option HookState → M W (Result PendingRequest String)
  shape_from phase none =
      pure (err (format ("shape called with non-shaping phase " ∷ phase_name phase ∷ [])))
  shape_from phase (some state) = do r ← dispatch_phase p phase state; pure (shape_result r)

  unfoldable pub shape : Phase → PendingRequest → M W (Result PendingRequest String)
  shape phase request = shape_from phase (shaping_state phase request)

  unfoldable pub post_phase_from : Phase → String → Option HookState → M W String
  post_phase_from phase text none = pure text
  post_phase_from phase text (some state) = do
    (_, after) ← dispatch_phase p phase state
    pure (text_of after)

  unfoldable pub post_phase : Phase → String → M W String
  post_phase phase text = post_phase_from phase text (text_state phase text)

  unfoldable pub note_incomplete : String → String → M W String
  note_incomplete text note = do
    _ ← emit p (warning note)
    pure (
        if is_empty (trim text)
        then format ("[" ∷ note ∷ "]" ∷ [])
        else format (text ∷ "\n\n[" ∷ note ∷ "]" ∷ []))

  unfoldable pub cut_short : String → ℕ → M W String
  cut_short text cap = note_incomplete text (
      format (
        "stopped after "
        ∷ decimal cap
        ∷ " tool cycles — the task was not finished. Raise `limits.max-iterations` if it needs more room."
        ∷ []))

  unfoldable pub build_initial_request :
      String
      → String
      → List Message
      → Option String
      → (String → W → W)
      → M W (Bool × PendingRequest)
  build_initial_request session message history principal on_effective_message = do
    (outcome, state) ← dispatch_phase p Phase.before_loop (
        HookState.before_loop
          (record { session = session; user_message = message; principal = principal }))
    let effective = user_turn_message message state
    _ ← lift (λ w. (tt, on_effective_message effective w))
    pure (
      is_proceeded outcome,
      record {
        model = none;
        messages = history ++ plain_message user effective ∷ [];
        tools = [];
        grammar = none;
        max_tokens = none;
        temperature = none;
      },
    )
