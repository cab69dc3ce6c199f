-- ===== src/Plan/Keeps.antt =====
-- pkgs/extensions/tool-plan: the stored plan is the plan.
use jan_klod.Common.{
  ℕ, ◌≤◌, ◌<◌, ◌≡◌, refl, sym, subst, ap, ◌∙◌, some-injective, arith, String, Bool, true, false,
  List, [], ◌∷◌, map, Option, none, some, All, All-map, filter_map, Result, ok, err,
}
use jan_klod.Json.{Codec, Value, of_items, items, get, as_array, ◌>>=◌}
use jan_klod.Session.EventLog.RoundTrip.{ReadsBack}
use jan_klod.Permission.Rules.{or_else}
use jan_klod.Plan.Steps.{
  u32_max, State, todo, doing, done, Step, Plan, PlanError, empty_plan, parse_state, parse_step,
  state_text, to_u32, read_plan, step_value, plan_value, parse_plan, read_call, apply, render,
}
use jan_klod.Plan.Ids.{IsSound, Keeps, apply_call-Keeps}
use jan_klod.Plan.Tool.{
  ToolError, Stored, found, missing, failed, Cell, written, store_plan, invoke_on, invoke,
}

parse_state-text : (state : State) → parse_state (state_text state) ≡ some state
unfolding parse_state
parse_state-text todo = refl
parse_state-text doing = refl
parse_state-text done = refl

to_u32-fits : (n : ℕ) → n ≤ u32_max → to_u32 n ≡ some n
to_u32-fits n h = ground arith

parse_step-value : (s : Step) → s.id ≤ u32_max → parse_step (step_value s) ≡ some s
unfolding parse_step step_value
parse_step-value s h = rw (to_u32-fits s.id h, parse_state-text s.state) refl

filter_map-values :
    (ss : List Step)
    → All (λ (s : Step). s.id ≤ u32_max) ss
    → filter_map parse_step (items (of_items (map step_value ss))) ≡ ss
filter_map-values [] h = refl
filter_map-values (s ∷ ss) (h, hs) =
    rw (filter_map, parse_step-value s h) (ap (λ l. s ∷ l) (filter_map-values ss hs))

module _ (codec : Codec) where
  read_plan-value :
      (plan : Plan)
      → All (λ (s : Step). s.id ≤ u32_max) plan.steps
      → plan.issued ≤ u32_max
      → read_plan (plan_value plan) (items (of_items (map step_value plan.steps))) ≡ plan
  unfolding plan_value
  read_plan-value plan ids fits =
      rw (filter_map-values plan.steps ids, to_u32-fits plan.issued fits) refl

  -- A sound plan that is rendered and parsed is the plan itself.
  pub parse_plan-render :
      (plan : Plan)
      → IsSound plan
      → ReadsBack codec (plan_value plan)
      → parse_plan codec (some (render codec plan)) ≡ plan
  unfolding parse_plan render
  parse_plan-render plan (ascending, below, fits) h = rw h (
      steps_found
      ∙ ap (λ p. or_else (some p) empty_plan)
          (read_plan-value plan
            (All-map (λ (s : Step). s.id ≤ plan.issued) (λ (s : Step). s.id ≤ u32_max)
              (λ s k. omega arith) plan.steps below)
            fits))
    where
      steps_found :
          or_else
            (get (plan_value plan) "steps" >>= as_array >>= λ steps.
              some (read_plan (plan_value plan) steps))
            empty_plan
          ≡ read_plan (plan_value plan) (items (of_items (map step_value plan.steps)))
      steps_found = unfold plan_value in refl

  apply-Keeps :
      (arguments : String) (plan : Plan)
      → IsSound plan
      → plan.issued < u32_max
      → Keeps plan (apply codec arguments plan)
  unfolding apply
  apply-Keeps arguments plan sound room = of_read (codec.from_str arguments)
    where
      of_read : (r : Result Value String) → Keeps plan (read_call codec r plan)
      of_read (ok call) = apply_call-Keeps plan sound call room
      of_read (err e) = tt

  -- The plan that the stored entry stands for.
  abbrev pub plan_at : Stored → Option Plan
  plan_at (found text) = some (parse_plan codec (some text))
  plan_at missing = some (parse_plan codec none)
  plan_at failed = none

  module _ {W : Type 0} (cell : Cell W) where
    -- A write that succeeds is what is read next.
    abbrev pub IsCell : Type 0
    IsCell = (text : String) (w w' : W) → cell.set text w ≡ (true, w') → cell.get w' ≡ found text

    -- How a call of the tool ends, where it finds `plan`.
    pub data Invoked (arguments : String) (plan : Plan) (w : W)
        : Result String ToolError × W → Type 0 where
      changed :
          {after : Plan} {w' : W}
          → apply codec arguments plan ≡ ok after
          → IsSound after
          → plan_at (cell.get w') ≡ some after
          → Invoked arguments plan w (ok (render codec after), w')
      refused :
          {error : PlanError}
          → apply codec arguments plan ≡ err error
          → Invoked arguments plan w (err ToolError.invalid_arguments, w)
      unwritten :
          {after : Plan} {w' : W}
          → apply codec arguments plan ≡ ok after
          → cell.set (render codec after) w ≡ (false, w')
          → Invoked arguments plan w (err ToolError.backend, w')

    module _ (lawful : IsCell) (arguments : String) (plan : Plan)
        (prints : (after : Plan)
          → apply codec arguments plan ≡ ok after
          → ReadsBack codec (plan_value after)) where
      written-Invoked :
          (after : Plan) (w : W) (r : Bool × W)
          → apply codec arguments plan ≡ ok after
          → IsSound after
          → cell.set (render codec after) w ≡ r
          → Invoked arguments plan w (written codec cell (render codec after) r)
      written-Invoked after w (true, w') h sound e =
          changed h sound (
            ap plan_at (lawful _ w w' e) ∙ ap some (parse_plan-render after sound (prints after h)))
      written-Invoked after w (false, w') h sound e = unwritten h e

      store_plan-Invoked :
          (w : W) (r : Result Plan PlanError)
          → apply codec arguments plan ≡ r
          → Keeps plan r
          → Invoked arguments plan w (store_plan codec cell r w)
      store_plan-Invoked w (ok after) e kept = written-Invoked after w _ e kept.0 refl
      store_plan-Invoked w (err error) e kept = refused e

      invoke_on-Invoked :
          (w : W) (stored : Stored)
          → plan_at stored ≡ some plan
          → IsSound plan
          → plan.issued < u32_max
          → Invoked arguments plan w (invoke_on codec cell arguments stored w)
      unfolding invoke_on
      invoke_on-Invoked w (found text) h sound room =
          subst (λ p. Invoked arguments plan w (store_plan codec cell (apply codec arguments p) w))
            (some-injective (sym h))
            (store_plan-Invoked w _ refl (apply-Keeps arguments plan sound room))
      invoke_on-Invoked w missing h sound room =
          subst (λ p. Invoked arguments plan w (store_plan codec cell (apply codec arguments p) w))
            (some-injective (sym h))
            (store_plan-Invoked w _ refl (apply-Keeps arguments plan sound room))
      invoke_on-Invoked w failed h sound room = cc

      -- The tool does to the stored plan what `apply` does to a plan. Where it finds a sound plan and
      -- the call is accepted, the entry stands for the plan after the call, which is sound and is what
      -- the tool returns; a refused call changes nothing; a failed write is reported as one.
      pub invoke-Invoked :
          (w : W)
          → plan_at (cell.get w) ≡ some plan
          → IsSound plan
          → plan.issued < u32_max
          → Invoked arguments plan w (invoke codec cell arguments w)
      unfolding invoke
      invoke-Invoked w h sound room = invoke_on-Invoked w (cell.get w) h sound room
