-- ===== src/Conductor/Tests/NoRm.antt =====
-- pkgs/host/agent/src/conductor.rs: on a run whose gate refuses `rm`, that tool never runs.
use jan_klod.Common.{
  All-append, sym, ◌∙◌, subst, ◌≡◌, ◌≢◌, refl, ap, String, true, false, List, [], ◌∷◌, Option, none,
  str_eq, ok, arith, All,
}
use jan_klod.Turn.{ToolCall}
use jan_klod.Intercept.Types.{Phase, HookState, Decision, proceeded, Interceptor}
use jan_klod.Intercept.Dispatch.{Verdict, settled, subscribes}
use jan_klod.Intercept.Passes.{
  Settles, proceeds, replaces, blocks, fails_closed, fails_open, asks, Dispatches, end, skip, pass,
  refuse,
}
use jan_klod.Conductor.Effects.{default_limits}
use jan_klod.Conductor.Tools.{effective_call}
use jan_klod.Conductor.Turns.{answered}
use jan_klod.Conductor.Clearance.{IsCleared, Keeps}
use jan_klod.Conductor.Clearance.Turn.{run_turn-IsCleared}
use jan_klod.Conductor.Tests.{World, start, judged, guard, parts, final, run_result}

-- No call of `rm` has run.
abbrev NoRm : World → Type 0
NoRm w = All (λ (name : String). str_eq name "rm" ≡ false) w.ran

abbrev Harmless : HookState → Type 0
Harmless (HookState.tool_call c) = str_eq c.name "rm" ≡ false
Harmless s = Unit

judged-Harmless : (s : HookState) → judged s ≡ ok Decision.proceed → Harmless s
judged-Harmless (HookState.tool_call c) e = ground arith
judged-Harmless (HookState.before_loop t) e = tt
judged-Harmless (HookState.select_model r) e = tt
judged-Harmless (HookState.select_context r) e = tt
judged-Harmless (HookState.select_tools r) e = tt
judged-Harmless (HookState.after_response r) e = tt
judged-Harmless (HookState.tool_result o) e = tt
judged-Harmless (HookState.finalize a) e = tt
judged-Harmless (HookState.prepare_next_turn r) e = tt

judged-ne-replace : (s t : HookState) → judged s ≢ ok (Decision.replace t)
judged-ne-replace (HookState.tool_call c) t = ground arith
judged-ne-replace (HookState.before_loop _) t = λ e. cc
judged-ne-replace (HookState.select_model r) t = λ e. cc
judged-ne-replace (HookState.select_context r) t = λ e. cc
judged-ne-replace (HookState.select_tools r) t = λ e. cc
judged-ne-replace (HookState.after_response r) t = λ e. cc
judged-ne-replace (HookState.tool_result o) t = λ e. cc
judged-ne-replace (HookState.finalize a) t = λ e. cc
judged-ne-replace (HookState.prepare_next_turn r) t = λ e. cc

guard-Settles :
    {s : HookState} {v : Verdict} {w' : World} {a : Option String} {w : World}
    → Settles parts.driver Phase.tool_call guard s v w' a w
    → (t : HookState) → v ≡ settled t
    → (t ≡ s) × Harmless s
guard-Settles {s} (proceeds e f h) t k = (cc, judged-Harmless s e)
guard-Settles {s} (replaces u e f h) t k = absurd (judged-ne-replace s u e)
guard-Settles (blocks r e f h) t k = cc
guard-Settles (fails_closed x n e f h) t k = cc
guard-Settles (fails_open x n e f h) t k = absurd (n refl)
guard-Settles {s} (asks q e f rest) t k = guard-Settles rest t k

heads :
    {i j : Interceptor World} {is js : List (Interceptor World)}
    → i ∷ is ≡ j ∷ js
    → (i ≡ j) × (is ≡ js)
heads e = (cc, cc)

nothing_left :
    {s' : HookState} {w' : World} {is : List (Interceptor World)} {s : HookState} {w : World}
    → Dispatches parts.driver Phase.tool_call proceeded s' w' is s w
    → is ≡ []
    → s' ≡ s
nothing_left (end e f g) h = f
nothing_left (skip e d) h = cc
nothing_left (pass e st d) h = cc
nothing_left (refuse r e st f g) h = cc

subscribes-guard : subscribes Phase.tool_call guard ≡ true
unfolding subscribes
subscribes-guard = refl

cleared-Harmless :
    {s' : HookState} {w' : World} {is : List (Interceptor World)} {s : HookState} {w : World}
    → Dispatches parts.driver Phase.tool_call proceeded s' w' is s w
    → is ≡ guard ∷ []
    → (s' ≡ s) × Harmless s
cleared-Harmless (end e f g) h = cc
cleared-Harmless (skip {i} e d) h =
    cc (e, ap (subscribes Phase.tool_call) (heads h).0, subscribes-guard)
cleared-Harmless (pass {i} {is} {s} {t} {w} {w1} e st d) h =
    let (unchanged, harmless) =
      guard-Settles
        (subst (λ j. Settles parts.driver Phase.tool_call j s (settled t) w1 none w) (heads h).0 st)
        t refl in
    (nothing_left d (heads h).1 ∙ unchanged, harmless)
cleared-Harmless (refuse r e st f g) h = cc

invoking_harmless :
    (c : ToolCall) (w : World) → IsCleared parts c w → NoRm w → str_eq c.name "rm" ≡ false
invoking_harmless c w k h =
    let (same, harmless) = cleared-Harmless k.gate refl in
    subst (λ (d : ToolCall). str_eq d.name "rm" ≡ false)
      (sym (k.effective ∙ ap (effective_call k.call) same)) harmless

parts_keep : Keeps NoRm parts
parts_keep = record {
  intercepts = ((λ x w h. h), tt);
  completes = ((λ r w h. h), ((λ r w h. h), tt));
  asking = λ q w h. h;
  following = λ w h. h;
  emitting = λ e w h. h;
  binding = λ s w h. h;
  invoking = λ c w k h. All-append _ w.ran (c.name ∷ []) h (invoking_harmless c w k h, tt);
}

run_turn-IsCleared_example : NoRm final
run_turn-IsCleared_example =
    run_turn-IsCleared NoRm parts 64 default_limits "s" "Tidy up." [] none (λ text w. w) start
      (answered "All done." true) final parts_keep (λ text u h. h) tt run_result
