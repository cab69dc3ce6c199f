-- ===== src/Guardrails/Closed.antt =====
-- pkgs/extensions/interceptor-guardrails/src/lib.rs under `Dispatcher::dispatch`: broken rules refuse
-- every tool call; whole rules never ask twice.
use jan_klod.Common.{
  ℕ, zero, suc, ◌≡◌, ◌≢◌, refl, String, List, [], ◌∷◌, ◌++◌, Option, none, some, err, inl, inr,
  Bool-cases,
}
use jan_klod.Turn.{Driver}
use jan_klod.Intercept.Types.{Phase, HookState, InterceptorError, Outcome, proceeded, Interceptor}
use jan_klod.Intercept.Dispatch.{
  Verdict, settled, refused, subscribes, judge, conclude, settle, advance, dispatch,
}
use jan_klod.Intercept.Passes.Sound.{dispatch-cons}
use jan_klod.Guardrails.Rules.{RuleError, Engine}
use jan_klod.Guardrails.Component.{guard_state, guardrails_interceptor}

module _ {R W : Type 0} (engine : Engine R) (driver : Driver W) where
  guard_state-err :
      (e : RuleError) (answer : Option String) (state : HookState)
      → (x : InterceptorError) × (guard_state engine (err e) answer state ≡ err x)
  unfolding guard_state
  guard_state-err e answer (HookState.before_loop t) = (_, refl)
  guard_state-err e answer (HookState.select_model r) = (_, refl)
  guard_state-err e answer (HookState.select_context r) = (_, refl)
  guard_state-err e answer (HookState.select_tools r) = (_, refl)
  guard_state-err e answer (HookState.after_response r) = (_, refl)
  guard_state-err e answer (HookState.tool_call c) = (_, refl)
  guard_state-err e answer (HookState.tool_result o) = (_, refl)
  guard_state-err e answer (HookState.finalize a) = (_, refl)
  guard_state-err e answer (HookState.prepare_next_turn r) = (_, refl)

  -- At a tool call broken rules refuse whatever state reaches them, at once.
  dispatch-broken_head :
      (fuel : ℕ) (e : RuleError) (rest : List (Interceptor W)) (s : HookState) (w : W) (o : Outcome)
      (s' : HookState) (w' : W)
      → dispatch driver Phase.tool_call fuel (guardrails_interceptor engine (err e) ∷ rest) s w
        ≡ some ((o, s'), w')
      → o ≢ proceeded
  unfolding dispatch guardrails_interceptor subscribes settle conclude judge advance
  dispatch-broken_head zero e rest s w o s' w' h = cc
  dispatch-broken_head (suc fuel) e rest s w o s' w' h =
      let (x, k) = guard_state-err e none s in let h2 = rw k at h in λ p. cc

  advance-refuses :
      (next : HookState → W → Option ((Outcome × HookState) × W)) (s : HookState)
      → ((t : HookState) (u : W) (o : Outcome) (s' : HookState) (w' : W)
          → next t u ≡ some ((o, s'), w')
          → o ≢ proceeded)
      → (v : Option (Verdict × W)) (o : Outcome) (s' : HookState) (w' : W)
      → advance s next v ≡ some ((o, s'), w')
      → o ≢ proceeded
  unfolding advance
  advance-refuses next s ih none o s' w' h = cc
  advance-refuses next s ih (some (settled t, u)) o s' w' h = ih t u o s' w' h
  advance-refuses next s ih (some (refused reason, u)) o s' w' h = λ p. cc

  -- While the rules cannot be read, no tool call gets through: a dispatch of a tool call that comes
  -- back does not proceed, whatever interceptors stand before and after the guardrails.
  pub dispatch-broken_rules :
      (fuel : ℕ) (e : RuleError) (before rest : List (Interceptor W)) (s : HookState) (w : W)
      (o : Outcome) (s' : HookState) (w' : W)
      → dispatch driver Phase.tool_call fuel
          (before ++ guardrails_interceptor engine (err e) ∷ rest)
          s
          w
        ≡ some ((o, s'), w')
      → o ≢ proceeded
  dispatch-broken_rules fuel e [] rest s w o s' w' h =
      dispatch-broken_head fuel e rest s w o s' w' h
  dispatch-broken_rules fuel e (i ∷ before) rest s w o s' w' h =
      elim (Bool-cases (subscribes Phase.tool_call i)) [
        | inl b ↦
            advance-refuses _ s (dispatch-broken_rules fuel e before rest)
              (settle driver Phase.tool_call fuel i s none w) o s' w'
              (rw (dispatch-cons driver Phase.tool_call fuel i _ s w, b) at h)
        | inr b ↦
            dispatch-broken_rules fuel e before rest s w o s' w'
              (rw (dispatch-cons driver Phase.tool_call fuel i _ s w, b) at h)
      ]
