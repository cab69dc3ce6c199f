-- ===== src/Plan/Tests.antt =====
-- pkgs/extensions/tool-plan on concrete calls, with a JSON library that knows the texts of the tests.
use jan_klod.Common.{
  ℕ, ◌+◌, ◌≤◌, ◌<◌, ◌≡◌, refl, sym, ap, subst, ◌∙◌, ok-injective, String, Bool, true, false, List,
  [], ◌∷◌, Option, none, some, length, Result, ok, err, arith, str_eq, if◌then◌else◌,
}
use jan_klod.Json.{Codec, Value, object, string, number, unsigned, field, end}
use jan_klod.Plan.Steps.{
  todo, Plan, empty_plan, no_such_step, empty_text, apply_call, run_op, add_step, remove_step,
  call_id, parse_plan, plan_value, apply,
}
use jan_klod.Session.EventLog.RoundTrip.{ReadsBack}
use jan_klod.Plan.Tool.{Cell, found, missing, invoke}
use jan_klod.Plan.Keeps.{IsCell, Invoked, invoke-Invoked}
use jan_klod.Plan.Ids.{IsSound, Renews, after_calls, after_calls-IsSound}

abbrev add : String → Value
add text = object (field "op" (string "add") (field "text" (string text) end))

abbrev on : String → ℕ → Value
on op n = object (field "op" (string op) (field "id" (number (unsigned n)) end))

abbrev busy : List Value
busy = add "write" ∷ add " test " ∷ on "remove" 2 ∷ add "ship" ∷ []

busy_run : after_calls busy empty_plan ≡ record {
  steps =
      record { id = 1; text = "write"; state = todo }
      ∷ record { id = 3; text = "ship"; state = todo }
      ∷ [];
  issued = 3;
}
unfolding after_calls apply_call run_op add_step remove_step call_id jan_klod.Common.trim
    jan_klod.Common.trim_start jan_klod.Common.trim_end jan_klod.Common.is_whitespace
busy_run = refl

refused_calls :
    (apply_call (on "remove" 7) empty_plan ≡ err (no_such_step 7))
    × (apply_call (add "  ") empty_plan ≡ err empty_text)
unfolding apply_call run_op add_step remove_step call_id jan_klod.Common.trim
refused_calls = (refl, refl)

after_calls-IsSound_example :
    IsSound (after_calls busy empty_plan) × Renews empty_plan (after_calls busy empty_plan)
after_calls-IsSound_example =
    after_calls-IsSound busy empty_plan (tt, tt, omega arith) (omega arith)

-- Every value is printed alike; the text "add" is the call.
abbrev first_plan : Plan
first_plan = record { steps = record { id = 1; text = "write"; state = todo } ∷ []; issued = 1 }

abbrev codec : Codec
codec = record {
  from_str = λ s. if str_eq s "add" then ok (add "write") else ok (plan_value first_plan);
  to_string = λ v. "plan";
}

abbrev memory : Cell (Option String)
memory = record {
  get = λ w. elim w [ none ↦ missing | some text ↦ found text ];
  set = λ text w. (true, some text);
}

memory-IsCell : IsCell codec memory
memory-IsCell text w w' e = rw (sym (ap (λ (r : Bool × Option String). r.1) e)) refl

first_add : apply codec "add" empty_plan ≡ ok first_plan
unfolding apply apply_call run_op add_step jan_klod.Common.trim jan_klod.Common.trim_start
    jan_klod.Common.trim_end jan_klod.Common.is_whitespace
first_add = refl

first_prints :
    (after : Plan) → apply codec "add" empty_plan ≡ ok after → ReadsBack codec (plan_value after)
first_prints after h =
    subst (λ p. ReadsBack codec (plan_value p)) (ok-injective (sym first_add ∙ h)) refl

invoke-Invoked_example : Invoked codec memory "add" empty_plan none (invoke codec memory "add" none)
invoke-Invoked_example =
    invoke-Invoked codec memory memory-IsCell "add" empty_plan first_prints none
      (unfold parse_plan in refl) (tt, tt, omega arith) (omega arith)
