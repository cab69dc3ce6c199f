-- ===== src/Conductor/Clearance/Turn.antt =====
-- pkgs/host/agent/src/conductor.rs: an invariant through a whole turn.
use jan_klod.Common.{
  ℕ, zero, suc, ◌+◌, ◌≡◌, refl, String, Bool, true, false, List, [], ◌∷◌, Option, none, some,
  Result, ok, err,
}
use jan_klod.Turn.{Message, ToolCall, tool_invoked, Flow, continue, stop}
use jan_klod.Intercept.Types.{
  Phase, HookState, PendingRequest, Completion, Outcome, proceeded, blocked,
}
use jan_klod.Intercept.Passes.{Dispatches}
use jan_klod.Conductor.Effects.{M, Parts, Limits}
use jan_klod.Conductor.Tools.{ToolPass, effective_call, gated_invoke, run_tool_call, run_tool_calls}
use jan_klod.Conductor.Phases.{
  shape, shape_from, shaping_state, post_phase, post_phase_from, note_incomplete, cut_short,
  build_initial_request,
}
use jan_klod.Conductor.Turns.{
  Step, again, finish, give_up, RunResult, shape_then, shape_all, unless_capped, follow,
  handle_no_tool_calls, after_tool_calls, handle_tool_calls, handle_answer, send_text, after_text,
  after_completion, after_round, round, turn_loop, finish_turn, run_shaped, run_turn,
}
use jan_klod.Conductor.Rules.{pending, back, Ensures-some, >>=-Ensures}
use jan_klod.Conductor.Clearance.{Keeps, Kept, dispatch_keeps, complete_validated_keeps}

module _ {W : Type 0} {P : W → Type 0} {p : Parts W} (keeps : Keeps P p) where
  -- The two halves of the gate: the tool runs in the state that the announcement left.
  gated_invoke_keeps :
      (call : ToolCall) (pass : ToolPass) (gate : Outcome × HookState) (before w : W)
      → P w
      → Dispatches p.driver Phase.tool_call gate.0 gate.1 w p.interceptors
          (HookState.tool_call call)
          before
      → Kept keeps (gated_invoke p call pass gate w)
  unfolding gated_invoke
  gated_invoke_keeps call pass (blocked reason, s) before w h d =
      >>=-Ensures _ _ w (back (keeps.emitting _ w h)) λ flow w1 h1. back h1
  gated_invoke_keeps call pass (proceeded, s) before w h d =
      >>=-Ensures
        {Q = λ flow w1. P w1 × (w1 ≡ (p.sink.emit (tool_invoked (effective_call call s)) w).1)} _ _
        w (back (keeps.emitting _ w h, refl))
        λ flow w1 (h1, e).
          >>=-Ensures _ _ w1
            (back (
              keeps.invoking _ w1
                (record {
                  call = call;
                  state = s;
                  before = before;
                  after = w;
                  gate = d;
                  effective = refl;
                  announced = e;
                })
                h1))
            λ found w2 h2. back h2

  run_tool_call_keeps :
      (call : ToolCall) (pass : ToolPass) (request : PendingRequest) (w : W)
      → P w
      → Kept keeps (run_tool_call p call pass request w)
  unfolding run_tool_call
  run_tool_call_keeps call pass request w h =
      >>=-Ensures _ _ w (dispatch_keeps keeps _ _ w h) λ gate w1 (h1, d).
        >>=-Ensures _ _ w1 (gated_invoke_keeps call pass gate w w1 h1 d) λ invoked w2 h2.
          >>=-Ensures _ _ w2 (dispatch_keeps keeps _ _ w2 h2) λ after w3 (h3, _).
            >>=-Ensures _ _ w3 (back (keeps.emitting _ w3 h3)) λ flow w4 h4. back h4

  run_tool_calls_keeps :
      (calls : List ToolCall) (pass : ToolPass) (request : PendingRequest) (w : W)
      → P w
      → Kept keeps (run_tool_calls p calls pass request w)
  unfolding run_tool_calls
  run_tool_calls_keeps [] pass request w h = back h
  run_tool_calls_keeps (call ∷ calls) pass request w h =
      >>=-Ensures _ _ w (run_tool_call_keeps call pass request w h)
        λ r w1 h1. run_tool_calls_keeps calls r.0 r.1 w1 h1

  note_incomplete_keeps :
      (text note : String) (w : W) → P w → Kept keeps (note_incomplete p text note w)
  unfolding note_incomplete
  note_incomplete_keeps text note w h =
      >>=-Ensures _ _ w (back (keeps.emitting _ w h)) λ flow w1 h1. back h1

  post_phase_from_keeps :
      (phase : Phase) (text : String) (o : Option HookState) (w : W)
      → P w
      → Kept keeps (post_phase_from p phase text o w)
  unfolding post_phase_from
  post_phase_from_keeps phase text none w h = back h
  post_phase_from_keeps phase text (some s) w h =
      >>=-Ensures _ _ w (dispatch_keeps keeps phase s w h) λ r w1 (h1, _). back h1

  unless_capped_keeps :
      (limits : Limits) (text : String) (b : Bool) (more : M W Step) (w : W)
      → P w
      → Kept keeps (more w)
      → Kept keeps (unless_capped p limits text b more w)
  unfolding unless_capped cut_short
  unless_capped_keeps limits text true more w h k =
      >>=-Ensures _ _ w (note_incomplete_keeps text _ w h) λ cut w1 h1. back h1
  unless_capped_keeps limits text false more w h k = k

  follow_keeps :
      (limits : Limits) (text : String) (request : PendingRequest) (n : ℕ) (o : Option String)
      (w : W)
      → P w
      → Kept keeps (follow p limits text request n o w)
  unfolding follow
  follow_keeps limits text request n none w h = back h
  follow_keeps limits text request n (some message) w h =
      >>=-Ensures _ _ w (dispatch_keeps keeps _ _ w h)
        λ r w1 (h1, _). unless_capped_keeps limits text _ _ w1 h1 (back h1)

  after_tool_calls_keeps :
      (pass : ToolPass) (text : String) (request : PendingRequest) (n : ℕ) (w : W)
      → P w
      → Kept keeps (after_tool_calls p pass text request n w)
  unfolding after_tool_calls
  after_tool_calls_keeps ToolPass.continue text request n w h = back h
  after_tool_calls_keeps ToolPass.terminated text request n w h = back h
  after_tool_calls_keeps ToolPass.cancelled text request n w h =
      >>=-Ensures _ _ w (note_incomplete_keeps text _ w h) λ noted w1 h1. back h1

  handle_answer_keeps :
      (limits : Limits) (calls : List ToolCall) (text : String) (request : PendingRequest) (n : ℕ)
      (w : W)
      → P w
      → Kept keeps (handle_answer p limits calls text request n w)
  unfolding handle_answer handle_no_tool_calls handle_tool_calls
  handle_answer_keeps limits [] text request n w h =
      >>=-Ensures _ _ w (back (keeps.following w h))
        λ o w1 h1. follow_keeps limits text request n o w1 h1
  handle_answer_keeps limits (call ∷ calls) text request n w h =
      unless_capped_keeps limits text _ _ w h (
        >>=-Ensures _ _ w (run_tool_calls_keeps (call ∷ calls) _ request w h)
          λ r w1 h1. after_tool_calls_keeps r.0 text r.1 (n + 1) w1 h1)

  send_text_keeps : (b : Bool) (text : String) (w : W) → P w → Kept keeps (send_text p b text w)
  unfolding send_text
  send_text_keeps true text w h = back h
  send_text_keeps false text w h = back (keeps.emitting _ w h)

  after_text_keeps :
      (limits : Limits) (calls : List ToolCall) (text : String) (request : PendingRequest) (n : ℕ)
      (flow : Flow) (w : W)
      → P w
      → Kept keeps (after_text p limits calls text request n flow w)
  unfolding after_text
  after_text_keeps limits calls text request n stop w h =
      >>=-Ensures _ _ w (note_incomplete_keeps text _ w h) λ noted w1 h1. back h1
  after_text_keeps limits calls text request n continue w h =
      handle_answer_keeps limits calls text request n w h

  after_completion_keeps :
      (limits : Limits) (request : PendingRequest) (n : ℕ) (r : Result Completion String) (w : W)
      → P w
      → Kept keeps (after_completion p limits request n r w)
  unfolding after_completion post_phase
  after_completion_keeps limits request n (err reason) w h =
      >>=-Ensures _ _ w (back (keeps.emitting _ w h)) λ flow w1 h1. back h1
  after_completion_keeps limits request n (ok completion) w h =
      >>=-Ensures _ _ w (post_phase_from_keeps Phase.after_response completion.text _ w h)
        λ text w1 h1.
          >>=-Ensures _ _ w1 (send_text_keeps _ text w1 h1)
            λ flow w2 h2. after_text_keeps limits completion.tool_calls text _ n flow w2 h2

  round_keeps :
      (limits : Limits) (request : PendingRequest) (n : ℕ) (w : W)
      → P w
      → Kept keeps (round p limits request n w)
  unfolding round
  round_keeps limits request n w h =
      >>=-Ensures _ _ w (back (complete_validated_keeps keeps request w h))
        λ r w1 h1. after_completion_keeps limits request n r w1 h1

  after_round_keeps :
      (next : PendingRequest → ℕ → M W (Result String String)) (step : Step) (w : W)
      → ((r : PendingRequest) (m : ℕ) → Kept keeps (next r m w))
      → P w
      → Kept keeps (after_round p next step w)
  unfolding after_round
  after_round_keeps next (again r m) w k h = k r m
  after_round_keeps next (finish text) w k h = back h
  after_round_keeps next (give_up reason) w k h = back h

  turn_loop_keeps :
      (fuel : ℕ) (limits : Limits) (request : PendingRequest) (n : ℕ) (w : W)
      → P w
      → Kept keeps (turn_loop p fuel limits request n w)
  unfolding turn_loop
  turn_loop_keeps zero limits request n w h = pending
  turn_loop_keeps (suc fuel) limits request n w h =
      >>=-Ensures _ _ w (round_keeps limits request n w h) λ step w1 h1.
        after_round_keeps (turn_loop p fuel limits) step w1
          (λ r m. turn_loop_keeps fuel limits r m w1 h1) h1

  shape_from_keeps :
      (phase : Phase) (o : Option HookState) (w : W) → P w → Kept keeps (shape_from p phase o w)
  unfolding shape_from
  shape_from_keeps phase none w h = back h
  shape_from_keeps phase (some s) w h =
      >>=-Ensures _ _ w (dispatch_keeps keeps phase s w h) λ r w1 (h1, _). back h1

  shape_then_keeps :
      (next : PendingRequest → M W (Result PendingRequest String))
      (r : Result PendingRequest String) (w : W)
      → ((request : PendingRequest) → Kept keeps (next request w))
      → P w
      → Kept keeps (shape_then p next r w)
  unfolding shape_then
  shape_then_keeps next (ok request) w k h = k request
  shape_then_keeps next (err reason) w k h = back h

  shape_all_keeps :
      (phases : List Phase) (request : PendingRequest) (w : W)
      → P w
      → Kept keeps (shape_all p phases request w)
  unfolding shape_all shape
  shape_all_keeps [] request w h = back h
  shape_all_keeps (phase ∷ phases) request w h =
      >>=-Ensures _ _ w (shape_from_keeps phase (shaping_state phase request) w h) λ r w1 h1.
        shape_then_keeps (shape_all p phases) r w1
          (λ request1. shape_all_keeps phases request1 w1 h1) h1

  finish_turn_keeps :
      (agentic : Bool) (r : Result String String) (w : W)
      → P w
      → Kept keeps (finish_turn p agentic r w)
  unfolding finish_turn post_phase
  finish_turn_keeps agentic (err reason) w h = back h
  finish_turn_keeps agentic (ok text) w h =
      >>=-Ensures _ _ w (post_phase_from_keeps Phase.finalize text _ w h)
        λ t w1 h1. >>=-Ensures _ _ w1 (back (keeps.emitting _ w1 h1)) λ flow w2 h2. back h2

  run_shaped_keeps :
      (fuel : ℕ) (limits : Limits) (agentic : Bool) (r : Result PendingRequest String) (w : W)
      → P w
      → Kept keeps (run_shaped p fuel limits agentic r w)
  unfolding run_shaped
  run_shaped_keeps fuel limits agentic (err reason) w h = back h
  run_shaped_keeps fuel limits agentic (ok request) w h =
      >>=-Ensures _ _ w (turn_loop_keeps fuel limits request 0 w h)
        λ r w1 h1. finish_turn_keeps agentic r w1 h1

  run_turn_keeps :
      (fuel : ℕ) (limits : Limits) (session message : String) (history : List Message)
      (principal : Option String) (log : String → W → W) (w : W)
      → ((text : String) (u : W) → P u → P (log text u))
      → P w
      → Kept keeps (run_turn p fuel limits session message history principal log w)
  unfolding run_turn build_initial_request
  run_turn_keeps fuel limits session message history principal log w k h =
      >>=-Ensures _ _ w (back (keeps.binding session w h)) λ u w1 h1.
        >>=-Ensures _ _ w1
          (>>=-Ensures _ _ w1 (dispatch_keeps keeps _ _ w1 h1)
            λ r w2 (h2, _). >>=-Ensures _ _ w2 (back (k _ w2 h2)) λ v w3 h3. back h3)
          λ b w3 h3.
            >>=-Ensures _ _ w3 (shape_all_keeps _ _ w3 h3)
              λ r w4 h4. run_shaped_keeps fuel limits b.0 r w4 h4

-- A tool runs only on a call that its gate has just cleared. Let `P` be kept by the interceptors,
-- the providers, the driver, the client's sink, the binding of the session and the logging of the
-- user's message, and by a tool where `IsCleared` holds of its call and of the state that it runs
-- in. Then a turn that comes back keeps `P`.
pub run_turn-IsCleared :
    {W : Type 0} (P : W → Type 0) (p : Parts W) (fuel : ℕ) (limits : Limits)
    (session message : String) (history : List Message) (principal : Option String)
    (log : String → W → W) (w : W) (r : RunResult) (w' : W)
    → Keeps P p
    → ((text : String) (u : W) → P u → P (log text u))
    → P w
    → run_turn p fuel limits session message history principal log w ≡ some (r, w')
    → P w'
run_turn-IsCleared P p fuel limits session message history principal log w r w' keeps k h e =
    Ensures-some _ e (run_turn_keeps keeps fuel limits session message history principal log w k h)
