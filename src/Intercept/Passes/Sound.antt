-- ===== src/Intercept/Passes/Sound.antt =====
-- pkgs/host/protocol/src/intercept.rs: every dispatch that comes back follows the contract.
use jan_klod.Common.{
  ℕ, zero, suc, ◌≡◌, ◌≢◌, refl, sym, ◌∙◌, String, Bool, if◌then◌else◌, true, false, List, [], ◌∷◌,
  Option, none, some, Result, ok, err, inl, inr, arith, ◌==◌, ==_iff, Bool-cases,
}
use jan_klod.Turn.{UserPrompt, Driver}
use jan_klod.Intercept.Types.{
  Phase, phase_index, HookState, Decision, InterceptorError, Outcome, Interceptor,
}
use jan_klod.Intercept.Dispatch.{
  Verdict, settled, refused, judge, conclude, advance, subscribes, settle, dispatch,
}
use jan_klod.Intercept.Passes.{
  input, Settles, proceeds, replaces, blocks, fails_closed, fails_open, asks, Dispatches, end, skip,
  pass, refuse,
}

phase-eq_of_index : (p q : Phase) → phase_index p ≡ phase_index q → p ≡ q
phase-eq_of_index p q h = ground arith

abbrev is_tool_call : Phase → Bool
is_tool_call phase = phase_index phase == phase_index Phase.tool_call

ne_tool_call : (phase : Phase) → is_tool_call phase ≡ false → phase ≢ Phase.tool_call
ne_tool_call phase h e = ground arith

module _ {W : Type 0} (driver : Driver W) (phase : Phase) where
  -- What follows a prompt.
  abbrev pub reenter : ℕ → Interceptor W → HookState → UserPrompt → W → Option (Verdict × W)
  reenter fuel i s q w = settle driver phase fuel i s (some (driver.ask q w).0) (driver.ask q w).1

  pub settle-suc :
      (fuel : ℕ) (i : Interceptor W) (s : HookState) (a : Option String) (w : W)
      → settle driver phase (suc fuel) i s a w
        ≡ conclude
            (judge phase i.id s (i.intercept (input driver phase s a) w).0)
            (reenter fuel i s)
            (i.intercept (input driver phase s a) w).1
  unfolding settle
  settle-suc fuel i s a w = refl

  pub dispatch-cons :
      (fuel : ℕ) (i : Interceptor W) (is : List (Interceptor W)) (s : HookState) (w : W)
      → dispatch driver phase fuel (i ∷ is) s w ≡ (
          if subscribes phase i
          then advance s (dispatch driver phase fuel is) (settle driver phase fuel i s none w)
          else dispatch driver phase fuel is s w)
  unfolding dispatch
  dispatch-cons fuel i is s w = ground arith

  settle_step :
      (fuel : ℕ) (i : Interceptor W) (s : HookState) (a : Option String) (w : W)
      (r : Result Decision InterceptorError) (v : Verdict) (w' : W)
      → ((b : Option String) (u : W)
          → settle driver phase fuel i s b u ≡ some (v, w')
          → Settles driver phase i s v w' b u)
      → (i.intercept (input driver phase s a) w).0 ≡ r
      → conclude
          (judge phase i.id s r)
          (reenter fuel i s)
          (i.intercept (input driver phase s a) w).1
        ≡ some (v, w')
      → Settles driver phase i s v w' a w
  unfolding conclude judge
  settle_step fuel i s a w (ok Decision.proceed) v w' ih e h =
      proceeds e (ground arith) (ground arith)
  settle_step fuel i s a w (ok (Decision.replace t)) v w' ih e h =
      replaces t e (ground arith) (ground arith)
  settle_step fuel i s a w (ok (Decision.block reason)) v w' ih e h =
      blocks reason e (ground arith) (ground arith)
  settle_step fuel i s a w (ok (Decision.ask q)) v w' ih e h = asks q e refl (ih _ _ h)
  settle_step fuel i s a w (err x) v w' ih e h = elim (Bool-cases (is_tool_call phase)) [
    | inl same ↦
        fails_closed x (phase-eq_of_index _ _ ((==_iff _ _).0 same)) e (ground arith) (ground arith)
    | inr other ↦ fails_open x (ne_tool_call phase other) e (ground arith) (ground arith)
  ]

  pub settle-Settles :
      (fuel : ℕ) (i : Interceptor W) (s : HookState) (a : Option String) (w : W) (v : Verdict)
      (w' : W)
      → settle driver phase fuel i s a w ≡ some (v, w')
      → Settles driver phase i s v w' a w
  unfolding settle
  settle-Settles zero i s a w v w' h = cc
  settle-Settles (suc fuel) i s a w v w' h =
      settle_step fuel i s a w _ v w' (λ b u. settle-Settles fuel i s b u v w') refl
        (sym (settle-suc fuel i s a w) ∙ h)

  advance_step :
      (fuel : ℕ) (i : Interceptor W) (is : List (Interceptor W)) (s : HookState) (w : W)
      (r : Option (Verdict × W)) (o : Outcome) (s' : HookState) (w' : W)
      → ((t : HookState) (u : W)
          → dispatch driver phase fuel is t u ≡ some ((o, s'), w')
          → Dispatches driver phase o s' w' is t u)
      → subscribes phase i ≡ true
      → settle driver phase fuel i s none w ≡ r
      → advance s (dispatch driver phase fuel is) r ≡ some ((o, s'), w')
      → Dispatches driver phase o s' w' (i ∷ is) s w
  unfolding advance
  advance_step fuel i is s w none o s' w' ih sub e h = cc
  advance_step fuel i is s w (some (settled t, u)) o s' w' ih sub e h =
      pass sub (settle-Settles fuel i s none w _ u e) (ih t u h)
  advance_step fuel i is s w (some (refused reason, u)) o s' w' ih sub e h =
      refuse reason sub (settle-Settles fuel i s none w _ w' (ground (arith, e))) (ground arith)
        (ground arith)

  -- Every dispatch that comes back follows the interceptor contract: the interceptors that
  -- subscribe to the phase are entered in load order, each until it decides, its replacement is
  -- what the next one sees, the first block ends the dispatch with the state that the blocker saw,
  -- and a failure blocks at `tool-call` and is passed over at every other phase.
  pub dispatch-Dispatches :
      (fuel : ℕ) (is : List (Interceptor W)) (s : HookState) (w : W) (o : Outcome) (s' : HookState)
      (w' : W)
      → dispatch driver phase fuel is s w ≡ some ((o, s'), w')
      → Dispatches driver phase o s' w' is s w
  dispatch-Dispatches fuel [] s w o s' w' h =
      end {s = s} {w = w} (unfold dispatch in ground arith) (unfold dispatch in ground arith)
        (unfold dispatch in ground arith)
  dispatch-Dispatches fuel (i ∷ is) s w o s' w' h = elim (Bool-cases (subscribes phase i)) [
    | inl sub ↦
        advance_step fuel i is s w _ o s' w' (λ t u. dispatch-Dispatches fuel is t u o s' w') sub
          refl (rw (dispatch-cons fuel i is s w, sub) at h)
    | inr un ↦
        skip un
          (dispatch-Dispatches fuel is s w o s' w' (rw (dispatch-cons fuel i is s w, un) at h))
  ]
