-- ===== src/Intercept/Passes.antt =====
-- pkgs/host/protocol/src/intercept.rs: the dispatcher against the interceptor contract, stated
-- without fuel as derivations of what each subscribed interceptor answered, in load order.
pub mod Sound
use jan_klod.Common.{
  ◌≡◌, ◌≢◌, String, true, false, List, [], ◌∷◌, Option, none, some, ok, err, format,
}
use jan_klod.Turn.{UserPrompt, Driver}
use jan_klod.Intercept.Types.{
  Phase, HookState, Decision, InterceptorError, BlockReason, InterceptInput, Outcome, proceeded,
  blocked, Interceptor,
}
use jan_klod.Intercept.Dispatch.{Verdict, settled, refused, subscribes}

-- Why a failing interceptor blocks a tool call.
abbrev pub failing_closed : String → BlockReason
failing_closed id = record {
  message = format ("interceptor `" ∷ id ∷ "` failed at tool-call; failing closed" ∷ []);
}

module _ {W : Type 0} (driver : Driver W) (phase : Phase) where
  abbrev pub input : HookState → Option String → InterceptInput
  input s a = record { phase = phase; state = s; answer = a }

  -- One interceptor ends in a verdict: by its decision, by its failure, or after it has asked.
  pub data Settles (i : Interceptor W) (s : HookState) (v : Verdict) (w' : W)
      : Option String → W → Type 0 where
    proceeds :
        {a : Option String} {w : W}
        → (i.intercept (input s a) w).0 ≡ ok Decision.proceed
        → w' ≡ (i.intercept (input s a) w).1
        → v ≡ settled s
        → Settles i s v w' a w
    replaces :
        {a : Option String} {w : W} (t : HookState)
        → (i.intercept (input s a) w).0 ≡ ok (Decision.replace t)
        → w' ≡ (i.intercept (input s a) w).1
        → v ≡ settled t
        → Settles i s v w' a w
    blocks :
        {a : Option String} {w : W} (reason : BlockReason)
        → (i.intercept (input s a) w).0 ≡ ok (Decision.block reason)
        → w' ≡ (i.intercept (input s a) w).1
        → v ≡ refused reason
        → Settles i s v w' a w
    fails_closed :
        {a : Option String} {w : W} (e : InterceptorError)
        → phase ≡ Phase.tool_call
        → (i.intercept (input s a) w).0 ≡ err e
        → w' ≡ (i.intercept (input s a) w).1
        → v ≡ refused (failing_closed i.id)
        → Settles i s v w' a w
    fails_open :
        {a : Option String} {w : W} (e : InterceptorError)
        → phase ≢ Phase.tool_call
        → (i.intercept (input s a) w).0 ≡ err e
        → w' ≡ (i.intercept (input s a) w).1
        → v ≡ settled s
        → Settles i s v w' a w
    asks :
        {a : Option String} {w w2 : W} {reply : String} (q : UserPrompt)
        → (i.intercept (input s a) w).0 ≡ ok (Decision.ask q)
        → driver.ask q (i.intercept (input s a) w).1 ≡ (reply, w2)
        → Settles i s v w' (some reply) w2
        → Settles i s v w' a w

  -- A dispatch: each subscribed interceptor in turn, until one refuses.
  pub data Dispatches (o : Outcome) (s' : HookState) (w' : W)
      : List (Interceptor W) → HookState → W → Type 0 where
    end : {s : HookState} {w : W} → o ≡ proceeded → s' ≡ s → w' ≡ w → Dispatches o s' w' [] s w
    skip :
        {i : Interceptor W} {is : List (Interceptor W)} {s : HookState} {w : W}
        → subscribes phase i ≡ false
        → Dispatches o s' w' is s w
        → Dispatches o s' w' (i ∷ is) s w
    pass :
        {i : Interceptor W} {is : List (Interceptor W)} {s t : HookState} {w w1 : W}
        → subscribes phase i ≡ true
        → Settles i s (settled t) w1 none w
        → Dispatches o s' w' is t w1
        → Dispatches o s' w' (i ∷ is) s w
    refuse :
        {i : Interceptor W} {is : List (Interceptor W)} {s : HookState} {w : W}
        (reason : BlockReason)
        → subscribes phase i ≡ true
        → Settles i s (refused reason) w' none w
        → o ≡ blocked reason
        → s' ≡ s
        → Dispatches o s' w' (i ∷ is) s w
