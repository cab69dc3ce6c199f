-- ===== src/Conductor/Clearance.antt =====
-- pkgs/host/agent/src/conductor.rs: no tool runs on a call that its gate has not just cleared. The
-- proof is a rule for invariants of the shared state.
pub mod Turn
use jan_klod.Common.{
  ℕ, zero, suc, ◌≡◌, refl, ap, subst, String, Bool, true, false, List, [], ◌∷◌, Option, none, some,
  Result, ok, err, inl, inr, All, Bool-cases, Result-cases,
}
use jan_klod.Turn.{UserPrompt, Event, Message, ToolCall, tool_invoked, Flow, continue, stop}
use jan_klod.Intercept.Types.{
  Phase, HookState, InterceptInput, Interceptor, Completer, PendingRequest, Completion, Outcome,
  proceeded, blocked, was_truncated,
}
use jan_klod.Intercept.Dispatch.{Verdict}
use jan_klod.Intercept.Passes.{
  Settles, proceeds, replaces, blocks, fails_closed, fails_open, asks, Dispatches, end, skip, pass,
  refuse,
}
use jan_klod.Intercept.Passes.Sound.{dispatch-Dispatches}
use jan_klod.Conductor.Effects.{M, Parts, Limits, dispatch_phase, max_retries}
use jan_klod.Conductor.Provider.{
  fallback_loop, fallback_from, complete_with_fallback, warn_truncated, check_completion, attempt,
  last_attempt, or_retry, retry_loop, complete_validated, Attempt, failed, accepted, malformed,
}
use jan_klod.Conductor.Tools.{ToolPass, effective_call, gated_invoke, run_tool_call, run_tool_calls}
use jan_klod.Conductor.Rules.{Ensures, pending, back, Ensures-some, Ensures-of, >>=-Ensures}

-- A call that the `tool-call` gate lets through: every subscribed interceptor has decided to
-- proceed or to replace it, and the client has been told of it; `w` is the state right after that.
pub record IsCleared {W : Type 0} (p : Parts W) (c : ToolCall) (w : W) : Type 0 where
  pub call : ToolCall
  pub state : HookState
  pub before : W
  pub after : W
  pub gate :
      Dispatches p.driver Phase.tool_call proceeded state after p.interceptors
        (HookState.tool_call call)
        before
  pub effective : c ≡ effective_call call state
  pub announced : w ≡ (p.sink.emit (tool_invoked c) after).1

-- What is asked of the attached parts: they keep `P`, the tools on cleared calls only.
pub record Keeps {W : Type 0} (P : W → Type 0) (p : Parts W) : Type 0 where
  pub intercepts :
      All
        (λ (i : Interceptor W). (x : InterceptInput) (w : W) → P w → P (i.intercept x w).1)
        p.interceptors
  pub completes :
      All
        (λ (c : Completer W). (r : PendingRequest) (w : W) → P w → P (c.complete r w).1)
        p.providers
  pub asking : (q : UserPrompt) (w : W) → P w → P (p.driver.ask q w).1
  pub following : (w : W) → P w → P (p.driver.follow_up w).1
  pub emitting : (e : Event) (w : W) → P w → P (p.sink.emit e w).1
  pub binding : (s : String) (w : W) → P w → P (p.tools.bind_session s w)
  pub invoking :
      (c : ToolCall) (w : W) → IsCleared p c w → P w → P (p.tools.invoke_asking c p.driver w).1

module _ {W : Type 0} {P : W → Type 0} {p : Parts W} (keeps : Keeps P p) where
  Settles-keeps :
      {phase : Phase} (i : Interceptor W) {s : HookState} {v : Verdict} {w' : W} {a : Option String}
      {w : W}
      → ((x : InterceptInput) (u : W) → P u → P (i.intercept x u).1)
      → Settles p.driver phase i s v w' a w
      → P w
      → P w'
  Settles-keeps i k (proceeds e f g) h = rw f (k _ _ h)
  Settles-keeps i k (replaces t e f g) h = rw f (k _ _ h)
  Settles-keeps i k (blocks r e f g) h = rw f (k _ _ h)
  Settles-keeps i k (fails_closed x n e f g) h = rw f (k _ _ h)
  Settles-keeps i k (fails_open x n e f g) h = rw f (k _ _ h)
  Settles-keeps i k (asks q e f rest) h =
      Settles-keeps i k rest (subst P (ap (λ (r : String × W). r.1) f) (keeps.asking q _ (k _ _ h)))

  Dispatches-keeps :
      {phase : Phase} {o : Outcome} {s' : HookState} {w' : W} {is : List (Interceptor W)}
      {s : HookState} {w : W}
      → All (λ (i : Interceptor W). (x : InterceptInput) (u : W) → P u → P (i.intercept x u).1) is
      → Dispatches p.driver phase o s' w' is s w
      → P w
      → P w'
  Dispatches-keeps k (end e f g) h = rw g h
  Dispatches-keeps k (skip e d) h = Dispatches-keeps k.1 d h
  Dispatches-keeps k (pass e st d) h = Dispatches-keeps k.1 d (Settles-keeps _ k.0 st h)
  Dispatches-keeps k (refuse r e st f g) h = Settles-keeps _ k.0 st h

  abbrev pub Kept : {A : Type 0} → Option (A × W) → Type 0
  Kept {A} o = Ensures (λ (a : A) (w : W). P w) o

  pub dispatch_keeps :
      (phase : Phase) (s : HookState) (w : W)
      → P w
      → Ensures
          (λ r w'. P w' × Dispatches p.driver phase r.0 r.1 w' p.interceptors s w)
          (dispatch_phase p phase s w)
  dispatch_keeps phase s w h = Ensures-of _ λ r w' e.
      let d = dispatch-Dispatches p.driver phase p.ask_fuel p.interceptors s w r.0 r.1 w' e in
      (Dispatches-keeps keeps.intercepts d h, d)

  fallback_loop_keeps :
      (request : PendingRequest) (cs : List (Completer W)) (failures : List String) (w : W)
      → All (λ (c : Completer W). (r : PendingRequest) (u : W) → P u → P (c.complete r u).1) cs
      → P w
      → P (fallback_loop p request cs failures w).1
  unfolding fallback_loop
  fallback_loop_keeps request [] failures w k h = h
  fallback_loop_keeps request (c ∷ cs) failures w (k, ks) h =
      elim (Result-cases (c.complete request w).0) [
        | inl (completion, e) ↦ rw (e, fallback_loop) (k request w h)
        | inr (reason, e) ↦
            rw (e, fallback_loop)
              (fallback_loop_keeps request cs _ _ ks (keeps.emitting _ _ (k request w h)))
      ]

  fallback_from_keeps :
      (cs : List (Completer W)) (request : PendingRequest) (w : W)
      → All (λ (c : Completer W). (r : PendingRequest) (u : W) → P u → P (c.complete r u).1) cs
      → P w
      → P (fallback_from p cs request w).1
  unfolding fallback_from
  fallback_from_keeps [] request w k h = h
  fallback_from_keeps (c ∷ cs) request w k h = fallback_loop_keeps request (c ∷ cs) [] w k h

  warn_truncated_keeps : (c : Completion) (w : W) → P w → P (warn_truncated p c w)
  unfolding warn_truncated
  warn_truncated_keeps c w h = elim (Bool-cases (was_truncated c)) [
    | inl truncated ↦ rw (truncated, warn_truncated) (keeps.emitting _ w h)
    | inr whole ↦ rw (whole, warn_truncated) h
  ]

  check_completion_keeps : (r : Result Completion String × W) → P r.1 → P (check_completion p r).1
  unfolding check_completion
  check_completion_keeps (err reason, w) h = h
  check_completion_keeps (ok completion, w) h = warn_truncated_keeps completion w h

  attempt_keeps : (request : PendingRequest) (w : W) → P w → P (attempt p request w).1
  unfolding attempt complete_with_fallback
  attempt_keeps request w h =
      check_completion_keeps _ (fallback_from_keeps p.providers request w keeps.completes h)

  last_attempt_keeps : (r : Attempt × W) → P r.1 → P (last_attempt p r).1
  last_attempt_keeps (failed reason, w) h = h
  last_attempt_keeps (accepted completion, w) h = h
  last_attempt_keeps (malformed completion reason, w) h = h

  or_retry_keeps :
      (next : PendingRequest → W → Result Completion String × W) (request : PendingRequest)
      (r : Attempt × W)
      → ((request1 : PendingRequest) (u : W) → P u → P (next request1 u).1)
      → P r.1
      → P (or_retry p next request r).1
  or_retry_keeps next request (failed reason, w) k h = h
  or_retry_keeps next request (accepted completion, w) k h = h
  or_retry_keeps next request (malformed completion reason, w) k h = k _ _ (keeps.emitting _ w h)

  retry_loop_keeps :
      (left : ℕ) (request : PendingRequest) (w : W) → P w → P (retry_loop p left request w).1
  unfolding retry_loop
  retry_loop_keeps zero request w h = last_attempt_keeps _ (attempt_keeps request w h)
  retry_loop_keeps (suc left) request w h =
      or_retry_keeps (retry_loop p left) request _ (retry_loop_keeps left)
        (attempt_keeps request w h)

  pub complete_validated_keeps :
      (request : PendingRequest) (w : W) → P w → P (complete_validated p request w).1
  unfolding complete_validated
  complete_validated_keeps request w h = retry_loop_keeps max_retries request w h
