-- ===== src/Intercept/Halts.antt =====
-- pkgs/host/protocol/src/intercept.rs: a dispatch comes back if no interceptor asks twice.
use jan_klod.Common.{
  ℕ, zero, suc, ◌≤◌, ◌≡◌, ◌≢◌, refl, ◌∙◌, String, List, [], ◌∷◌, Option, none, some, Result, ok,
  err, inl, inr, arith, All, ◌==◌, Bool-cases,
}
use jan_klod.Turn.{UserPrompt, Driver}
use jan_klod.Intercept.Types.{
  Phase, phase_index, HookState, Decision, InterceptorError, Outcome, proceeded, blocked,
  Interceptor,
}
use jan_klod.Intercept.Dispatch.{
  Verdict, settled, refused, ends, judge, conclude, advance, subscribes, settle, dispatch,
}
use jan_klod.Intercept.Passes.{failing_closed}
use jan_klod.Intercept.Passes.Sound.{settle-suc, dispatch-cons, reenter}

-- Once it has its answer, the interceptor decides (or fails): it does not ask again.
abbrev pub IsDecisive : {W : Type 0} → Interceptor W → Type 0
IsDecisive {W} i =
    (phase : Phase) (s : HookState) (reply : String) (w : W) (q : UserPrompt)
    → (i.intercept (record { phase = phase; state = s; answer = some reply }) w).0
      ≢ ok (Decision.ask q)

module _ {W : Type 0} (driver : Driver W) (phase : Phase) where
  -- A failure ends the loop, whatever the phase.
  judge-err :
      (id : String) (s : HookState) (e : InterceptorError)
      → (v : Verdict) × (judge phase id s (err e) ≡ ends v)
  unfolding judge
  judge-err id s e = elim (Bool-cases (phase_index phase == phase_index Phase.tool_call)) [
    | inl same ↦ (refused (failing_closed id), rw same)
    | inr other ↦ (settled s, rw other)
  ]

  conclude_answered :
      (id : String) (s : HookState) (r : Result Decision InterceptorError)
      (next : UserPrompt → W → Option (Verdict × W)) (w : W)
      → ((q : UserPrompt) → r ≡ ok (Decision.ask q) → (x : Verdict × W) × (next q w ≡ some x))
      → (x : Verdict × W) × (conclude (judge phase id s r) next w ≡ some x)
  unfolding conclude
  conclude_answered id s (ok Decision.proceed) next w h = ((settled s, w), unfold judge in refl)
  conclude_answered id s (ok (Decision.replace t)) next w h = ((settled t, w), unfold judge in refl)
  conclude_answered id s (ok (Decision.block reason)) next w h =
      ((refused reason, w), unfold judge in refl)
  conclude_answered id s (ok (Decision.ask q)) next w h = unfold judge in h q refl
  conclude_answered id s (err e) next w h = let (v, j) = judge-err id s e in ((v, w), rw j)

  -- The second entry is the last.
  settle_second :
      (fuel : ℕ) (i : Interceptor W) (s : HookState) (reply : String) (w : W)
      → IsDecisive i
      → (x : Verdict × W) × (settle driver phase (suc fuel) i s (some reply) w ≡ some x)
  settle_second fuel i s reply w d =
      let (x, e) =
        conclude_answered i.id s _ (reenter driver phase fuel i s) _
          (λ q asked. absurd (d phase s reply w q asked)) in
      (x, settle-suc driver phase fuel i s (some reply) w ∙ e)

  pub settle_returns :
      (fuel : ℕ) (i : Interceptor W) (s : HookState) (a : Option String) (w : W)
      → IsDecisive i
      → (x : Verdict × W) × (settle driver phase (suc (suc fuel)) i s a w ≡ some x)
  settle_returns fuel i s a w d =
      let (x, e) =
        conclude_answered i.id s _ (reenter driver phase (suc fuel) i s) _
          (λ q asked. settle_second fuel i s _ _ d) in
      (x, settle-suc driver phase (suc fuel) i s a w ∙ e)

  advance_returns :
      (s : HookState) (next : HookState → W → Option ((Outcome × HookState) × W))
      (r : Option (Verdict × W)) (x : Verdict × W)
      → ((t : HookState) (u : W) → (y : (Outcome × HookState) × W) × (next t u ≡ some y))
      → r ≡ some x
      → (y : (Outcome × HookState) × W) × (advance s next r ≡ some y)
  unfolding advance
  advance_returns s next r (settled t, u) h e = let (y, e1) = h t u in (y, rw (e, advance) e1)
  advance_returns s next r (refused reason, u) h e = (((blocked reason, s), u), rw (e, advance))

  -- If no interceptor asks again once it has been answered, a dispatch comes back: two entries of
  -- each interceptor are enough, whatever the driver replies.
  pub dispatch_returns :
      (fuel : ℕ) (is : List (Interceptor W)) (s : HookState) (w : W)
      → All IsDecisive is
      → 2 ≤ fuel
      → (y : (Outcome × HookState) × W) × (dispatch driver phase fuel is s w ≡ some y)
  dispatch_returns zero is s w d h = absurd (omega arith)
  dispatch_returns (suc zero) is s w d h = absurd (omega arith)
  dispatch_returns (suc (suc fuel)) [] s w d h = (((proceeded, s), w), unfold dispatch in refl)
  dispatch_returns (suc (suc fuel)) (i ∷ is) s w (d, ds) h =
      elim (Bool-cases (subscribes phase i)) [
        | inl sub ↦
            let (x, e) = settle_returns fuel i s none w d in
            let (y, e1) =
              advance_returns s (dispatch driver phase (suc (suc fuel)) is) _ x
                (λ t u. dispatch_returns (suc (suc fuel)) is t u ds h) e in
            (y, rw (dispatch-cons driver phase (suc (suc fuel)) i is s w, sub) e1)
        | inr un ↦
            let (y, e1) = dispatch_returns (suc (suc fuel)) is s w ds h in
            (y, rw (dispatch-cons driver phase (suc (suc fuel)) i is s w, un) e1)
      ]
