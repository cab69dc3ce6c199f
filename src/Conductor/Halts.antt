-- ===== src/Conductor/Halts.antt =====
-- pkgs/host/agent/src/conductor.rs: a turn comes back.
use jan_klod.Common.{
  ℕ, zero, suc, ◌+◌, ◌≤◌, ◌<◌, ◌≡◌, refl, String, Bool, true, false, List, [], ◌∷◌, Option, none,
  some, Result, ok, err, arith, All,
}
use jan_klod.Turn.{Message, ToolCall, Flow, continue, stop}
use jan_klod.Intercept.Types.{Phase, HookState, PendingRequest, Completion, proceeded, blocked}
use jan_klod.Intercept.Halts.{IsDecisive, dispatch_returns}
use jan_klod.Conductor.Effects.{M, Parts, Limits, dispatch_phase}
use jan_klod.Conductor.Tools.{ToolPass, gated_invoke, run_tool_call, run_tool_calls}
use jan_klod.Conductor.Phases.{
  shape, shape_from, shaping_state, post_phase, post_phase_from, note_incomplete, cut_short,
  build_initial_request,
}
use jan_klod.Conductor.Turns.{
  Step, again, finish, give_up, RunResult, shape_then, shape_all, unless_capped, is_capped, follow,
  handle_no_tool_calls, after_tool_calls, handle_tool_calls, handle_answer, send_text, after_text,
  after_completion, after_round, round, turn_loop, finish_turn, run_shaped, run_turn,
}
use jan_klod.Conductor.Rules.{Returns, returns, returned, Returns-of_eq, Returns-some, >>=-Returns}

-- The parts of a turn in which no interceptor asks again once it has been answered.
pub record Settling {W : Type 0} (p : Parts W) : Type 0 where
  pub decisive : All IsDecisive p.interceptors
  pub fuelled : 2 ≤ p.ask_fuel

module _ {W : Type 0} {p : Parts W} (settling : Settling p) where
  dispatch_phase-Returns :
      (phase : Phase) (s : HookState) (w : W)
      → Returns (λ _ _. Unit {0}) (dispatch_phase p phase s w)
  dispatch_phase-Returns phase s w =
      let (y, e) =
        dispatch_returns p.driver phase p.ask_fuel p.interceptors s w settling.decisive
          settling.fuelled in
      Returns-of_eq _ y e

  gated_invoke-Returns :
      (call : ToolCall) (pass : ToolPass) (gate : _) (w : W)
      → Returns (λ _ _. Unit {0}) (gated_invoke p call pass gate w)
  unfolding gated_invoke
  gated_invoke-Returns call pass (blocked reason, s) w =
      >>=-Returns _ _ w (returned _ _) λ flow w1 _. returns tt
  gated_invoke-Returns call pass (proceeded, s) w =
      >>=-Returns _ _ w (returned _ _)
        λ flow w1 _. >>=-Returns _ _ w1 (returned _ _) λ found w2 _. returns tt

  run_tool_call-Returns :
      (call : ToolCall) (pass : ToolPass) (request : PendingRequest) (w : W)
      → Returns (λ _ _. Unit {0}) (run_tool_call p call pass request w)
  unfolding run_tool_call
  run_tool_call-Returns call pass request w =
      >>=-Returns _ _ w (dispatch_phase-Returns _ _ w) λ gate w1 _.
        >>=-Returns _ _ w1 (gated_invoke-Returns call pass gate w1) λ invoked w2 _.
          >>=-Returns _ _ w2 (dispatch_phase-Returns _ _ w2)
            λ after w3 _. >>=-Returns _ _ w3 (returned _ _) λ flow w4 _. returns tt

  run_tool_calls-Returns :
      (calls : List ToolCall) (pass : ToolPass) (request : PendingRequest) (w : W)
      → Returns (λ _ _. Unit {0}) (run_tool_calls p calls pass request w)
  unfolding run_tool_calls
  run_tool_calls-Returns [] pass request w = returns tt
  run_tool_calls-Returns (call ∷ calls) pass request w =
      >>=-Returns _ _ w (run_tool_call-Returns call pass request w)
        λ r w1 _. run_tool_calls-Returns calls r.0 r.1 w1

  note_incomplete-Returns :
      (text note : String) (w : W) → Returns (λ _ _. Unit {0}) (note_incomplete p text note w)
  unfolding note_incomplete
  note_incomplete-Returns text note w = >>=-Returns _ _ w (returned _ _) λ flow w1 _. returns tt

  cut_short-Returns :
      (text : String) (cap : ℕ) (w : W) → Returns (λ _ _. Unit {0}) (cut_short p text cap w)
  unfolding cut_short
  cut_short-Returns text cap w = note_incomplete-Returns text _ w

  post_phase_from-Returns :
      (phase : Phase) (text : String) (o : Option HookState) (w : W)
      → Returns (λ _ _. Unit {0}) (post_phase_from p phase text o w)
  unfolding post_phase_from
  post_phase_from-Returns phase text none w = returns tt
  post_phase_from-Returns phase text (some s) w =
      >>=-Returns _ _ w (dispatch_phase-Returns phase s w) λ r w1 _. returns tt

  post_phase-Returns :
      (phase : Phase) (text : String) (w : W)
      → Returns (λ _ _. Unit {0}) (post_phase p phase text w)
  unfolding post_phase
  post_phase-Returns phase text w = post_phase_from-Returns phase text _ w

  -- A round that goes on has counted itself, and is still below the cap.
  abbrev Advances : Limits → ℕ → Step → Type 0
  Advances limits n (again r m) = (m ≡ n + 1) × (n + 1 < limits.max_iterations)
  Advances limits n (finish t) = Unit
  Advances limits n (give_up t) = Unit

  abbrev RoundReturns : Limits → ℕ → Option (Step × W) → Type 0
  RoundReturns limits n = Returns (λ step _. Advances limits n step)

  unless_capped_returns :
      (limits : Limits) (text : String) (n : ℕ) (b : Bool) (more : M W Step) (w : W)
      → is_capped p limits (n + 1) ≡ b
      → (n + 1 < limits.max_iterations → RoundReturns limits n (more w))
      → RoundReturns limits n (unless_capped p limits text b more w)
  unfolding unless_capped
  unless_capped_returns limits text n true more w e h =
      >>=-Returns _ _ w (cut_short-Returns text _ w) λ cut w1 _. returns tt
  unless_capped_returns limits text n false more w e h = h (ground arith)

  follow_returns :
      (limits : Limits) (text : String) (request : PendingRequest) (n : ℕ) (o : Option String)
      (w : W)
      → RoundReturns limits n (follow p limits text request n o w)
  unfolding follow
  follow_returns limits text request n none w = returns tt
  follow_returns limits text request n (some message) w =
      >>=-Returns _ _ w (dispatch_phase-Returns _ _ w)
        λ r w1 _. unless_capped_returns limits text n _ _ w1 refl λ below. returns (refl, below)

  after_tool_calls_returns :
      (limits : Limits) (pass : ToolPass) (text : String) (request : PendingRequest) (n : ℕ) (w : W)
      → n + 1 < limits.max_iterations
      → RoundReturns limits n (after_tool_calls p pass text request (n + 1) w)
  unfolding after_tool_calls
  after_tool_calls_returns limits ToolPass.continue text request n w below = returns (refl, below)
  after_tool_calls_returns limits ToolPass.terminated text request n w below = returns tt
  after_tool_calls_returns limits ToolPass.cancelled text request n w below =
      >>=-Returns _ _ w (note_incomplete-Returns text _ w) λ noted w1 _. returns tt

  handle_answer_returns :
      (limits : Limits) (calls : List ToolCall) (text : String) (request : PendingRequest) (n : ℕ)
      (w : W)
      → RoundReturns limits n (handle_answer p limits calls text request n w)
  unfolding handle_answer handle_no_tool_calls handle_tool_calls
  handle_answer_returns limits [] text request n w =
      >>=-Returns _ _ w (returned _ _) λ o w1 _. follow_returns limits text request n o w1
  handle_answer_returns limits (call ∷ calls) text request n w =
      unless_capped_returns limits text n _ _ w refl λ below.
        >>=-Returns _ _ w (run_tool_calls-Returns (call ∷ calls) _ request w)
          λ r w1 _. after_tool_calls_returns limits r.0 text r.1 n w1 below

  send_text-Returns :
      (b : Bool) (text : String) (w : W) → Returns (λ _ _. Unit {0}) (send_text p b text w)
  unfolding send_text
  send_text-Returns true text w = returns tt
  send_text-Returns false text w = returned _ _

  after_text_returns :
      (limits : Limits) (calls : List ToolCall) (text : String) (request : PendingRequest) (n : ℕ)
      (flow : Flow) (w : W)
      → RoundReturns limits n (after_text p limits calls text request n flow w)
  unfolding after_text
  after_text_returns limits calls text request n stop w =
      >>=-Returns _ _ w (note_incomplete-Returns text _ w) λ noted w1 _. returns tt
  after_text_returns limits calls text request n continue w =
      handle_answer_returns limits calls text request n w

  after_completion_returns :
      (limits : Limits) (request : PendingRequest) (n : ℕ) (r : Result Completion String) (w : W)
      → RoundReturns limits n (after_completion p limits request n r w)
  unfolding after_completion
  after_completion_returns limits request n (err reason) w =
      >>=-Returns _ _ w (returned _ _) λ flow w1 _. returns tt
  after_completion_returns limits request n (ok completion) w =
      >>=-Returns _ _ w (post_phase-Returns Phase.after_response completion.text w) λ text w1 _.
        >>=-Returns _ _ w1 (send_text-Returns _ text w1)
          λ flow w2 _. after_text_returns limits completion.tool_calls text _ n flow w2

  round_returns :
      (limits : Limits) (request : PendingRequest) (n : ℕ) (w : W)
      → RoundReturns limits n (round p limits request n w)
  unfolding round
  round_returns limits request n w =
      >>=-Returns _ _ w (returned _ _) λ r w1 _. after_completion_returns limits request n r w1

  after_round-Returns :
      (limits : Limits) (n : ℕ) (next : PendingRequest → ℕ → M W (Result String String))
      (step : Step) (w : W)
      → Advances limits n step
      → ((r : PendingRequest) (m : ℕ)
          → m ≡ n + 1
          → n + 1 < limits.max_iterations
          → Returns (λ _ _. Unit {0}) (next r m w))
      → Returns (λ _ _. Unit {0}) (after_round p next step w)
  unfolding after_round
  after_round-Returns limits n next (again r m) w (e, below) h = h r m e below
  after_round-Returns limits n next (finish text) w adv h = returns tt
  after_round-Returns limits n next (give_up reason) w adv h = returns tt

  -- `fuel` rounds are enough for the iterations that the cap leaves.
  turn_loop-Returns :
      (fuel : ℕ) (limits : Limits) (request : PendingRequest) (n : ℕ) (w : W)
      → 0 < fuel
      → limits.max_iterations ≤ n + fuel
      → Returns (λ _ _. Unit {0}) (turn_loop p fuel limits request n w)
  unfolding turn_loop
  turn_loop-Returns zero limits request n w h k = absurd (omega arith)
  turn_loop-Returns (suc fuel) limits request n w h k =
      >>=-Returns _ _ w (round_returns limits request n w) λ step w1 adv.
        after_round-Returns limits n (turn_loop p fuel limits) step w1 adv
          λ r m e below. turn_loop-Returns fuel limits r m w1 (omega arith) (omega arith)

  shape_from-Returns :
      (phase : Phase) (o : Option HookState) (w : W)
      → Returns (λ _ _. Unit {0}) (shape_from p phase o w)
  unfolding shape_from
  shape_from-Returns phase none w = returns tt
  shape_from-Returns phase (some s) w =
      >>=-Returns _ _ w (dispatch_phase-Returns phase s w) λ r w1 _. returns tt

  shape_then-Returns :
      (next : PendingRequest → M W (Result PendingRequest String))
      (r : Result PendingRequest String) (w : W)
      → ((request : PendingRequest) → Returns (λ _ _. Unit {0}) (next request w))
      → Returns (λ _ _. Unit {0}) (shape_then p next r w)
  unfolding shape_then
  shape_then-Returns next (ok request) w h = h request
  shape_then-Returns next (err reason) w h = returns tt

  shape_all-Returns :
      (phases : List Phase) (request : PendingRequest) (w : W)
      → Returns (λ _ _. Unit {0}) (shape_all p phases request w)
  unfolding shape_all shape
  shape_all-Returns [] request w = returns tt
  shape_all-Returns (phase ∷ phases) request w =
      >>=-Returns _ _ w (shape_from-Returns phase (shaping_state phase request) w) λ r w1 _.
        shape_then-Returns (shape_all p phases) r w1
          (λ request1. shape_all-Returns phases request1 w1)

  finish_turn-Returns :
      (agentic : Bool) (r : Result String String) (w : W)
      → Returns (λ _ _. Unit {0}) (finish_turn p agentic r w)
  unfolding finish_turn
  finish_turn-Returns agentic (err reason) w = returns tt
  finish_turn-Returns agentic (ok text) w =
      >>=-Returns _ _ w (post_phase-Returns Phase.finalize text w)
        λ t w1 _. >>=-Returns _ _ w1 (returned _ _) λ flow w2 _. returns tt

  run_shaped-Returns :
      (fuel : ℕ) (limits : Limits) (agentic : Bool) (r : Result PendingRequest String) (w : W)
      → 0 < fuel
      → limits.max_iterations ≤ fuel
      → Returns (λ _ _. Unit {0}) (run_shaped p fuel limits agentic r w)
  unfolding run_shaped
  run_shaped-Returns fuel limits agentic (err reason) w h k = returns tt
  run_shaped-Returns fuel limits agentic (ok request) w h k =
      >>=-Returns _ _ w (turn_loop-Returns fuel limits request 0 w h (omega arith))
        λ r w1 _. finish_turn-Returns agentic r w1

  build_initial_request-Returns :
      (session message : String) (history : List Message) (principal : Option String)
      (log : String → W → W) (w : W)
      → Returns (λ _ _. Unit {0}) (build_initial_request p session message history principal log w)
  unfolding build_initial_request
  build_initial_request-Returns session message history principal log w =
      >>=-Returns _ _ w (dispatch_phase-Returns _ _ w)
        λ r w1 _. >>=-Returns _ _ w1 (returned _ _) λ u w2 _. returns tt

  -- Where no interceptor asks again once it has been answered, every turn comes back with a result,
  -- whatever the providers, the tools, the driver and the client do: the loop makes at most
  -- `max_iterations` rounds (one, if the cap is 0), so that many are enough.
  pub run_turn_returns :
      (fuel : ℕ) (limits : Limits) (session message : String) (history : List Message)
      (principal : Option String) (log : String → W → W) (w : W)
      → 0 < fuel
      → limits.max_iterations ≤ fuel
      → (r : RunResult) × (w' : W) × (run_turn p fuel limits session message history principal log w
          ≡ some (r, w'))
  run_turn_returns fuel limits session message history principal log w h k =
      let (r, w', e, _) = Returns-some run in (r, w', e)
    where
      run :
          Returns (λ _ _. Unit {0}) (run_turn p fuel limits session message history principal log w)
      run =
          unfold run_turn in
          >>=-Returns _ _ w (returned _ _) λ u w1 _.
            >>=-Returns _ _ w1
              (build_initial_request-Returns session message history principal log w1)
              λ b w2 _.
                >>=-Returns _ _ w2 (shape_all-Returns _ _ w2)
                  λ r w3 _. run_shaped-Returns fuel limits b.0 r w3 h k
