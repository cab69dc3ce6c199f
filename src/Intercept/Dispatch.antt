-- ===== src/Intercept/Dispatch.antt =====
-- pkgs/host/protocol/src/intercept.rs: `Dispatcher::dispatch`. An interceptor may ask any number of
-- times, so the inner `loop` takes fuel; `none` is a dispatch that is still asking when it is spent.
use jan_klod.Common.{
  ℕ, zero, suc, String, Bool, true, false, List, [], ◌∷◌, Option, none, some, Result, ok, err, any,
  format, ◌==◌, if◌then◌else◌,
}
use jan_klod.Turn.{UserPrompt, Driver}
use jan_klod.Intercept.Types.{
  Phase, phase_index, HookState, Decision, InterceptorError, BlockReason, Outcome, proceeded,
  blocked, Interceptor,
}

-- How the inner loop is left: by `break` with a state, or by `return Outcome::Blocked`.
pub data Verdict : Type 0 where
  settled : HookState → Verdict
  refused : BlockReason → Verdict

-- What one answer of an interceptor comes to: the loop is left, or the driver is asked.
pub data Judgement : Type 0 where
  ends : Verdict → Judgement
  asking : UserPrompt → Judgement

-- The arms of the `match` on the interceptor's answer.
unfoldable pub judge : Phase → String → HookState → Result Decision InterceptorError → Judgement
judge phase id state (ok Decision.proceed) = ends (settled state)
judge phase id state (ok (Decision.replace new_state)) = ends (settled new_state)
judge phase id state (ok (Decision.block reason)) = ends (refused reason)
judge phase id state (ok (Decision.ask prompt)) = asking prompt
judge phase id state (err e) =
    if phase_index phase == phase_index Phase.tool_call
    then ends (
        refused (record {
          message = format ("interceptor `" ∷ id ∷ "` failed at tool-call; failing closed" ∷ []);
        }))
    else ends (settled state)

-- `subscribed_phases().contains(&phase)`.
unfoldable pub subscribes : {W : Type 0} → Phase → Interceptor W → Bool
subscribes phase i = any (λ p. phase_index p == phase_index phase) i.subscribed_phases

-- The end of one round of the inner loop: it is left, or goes on with the driver's reply.
unfoldable pub conclude :
    {W : Type 0} → Judgement → (UserPrompt → W → Option (Verdict × W)) → W → Option (Verdict × W)
conclude (ends verdict) next w = some (verdict, w)
conclude (asking prompt) next w = next prompt w

-- The rest of the outer loop, once an interceptor is done.
unfoldable pub advance :
    {W : Type 0}
    → HookState
    → (HookState → W → Option ((Outcome × HookState) × W))
    → Option (Verdict × W)
    → Option ((Outcome × HookState) × W)
advance state next none = none
advance state next (some (settled s, w)) = next s w
advance state next (some (refused reason, w)) = some ((blocked reason, state), w)

module _ {W : Type 0} (driver : Driver W) (phase : Phase) where
  -- The inner `loop`: `answer` is set only when the interceptor has just asked.
  unfoldable pub settle : ℕ → Interceptor W → HookState → Option String → W → Option (Verdict × W)
  unfolding conclude judge
  settle zero i state answer w = none
  settle (suc fuel) i state answer w =
      let (result, w1) = i.intercept (record { phase = phase; state = state; answer = answer }) w in
      conclude (judge phase i.id state result)
        (λ prompt w2. let (reply, w3) = driver.ask prompt w2 in settle fuel i state (some reply) w3)
        w1

  -- The `for` loop over the interceptors, in load order.
  unfoldable pub dispatch :
      ℕ → List (Interceptor W) → HookState → W → Option ((Outcome × HookState) × W)
  unfolding subscribes settle advance
  dispatch fuel [] state w = some ((proceeded, state), w)
  dispatch fuel (i ∷ rest) state w = elim (subscribes phase i) [
    | true ↦ advance state (dispatch fuel rest) (settle fuel i state none w)
    | false ↦ dispatch fuel rest state w
  ]
