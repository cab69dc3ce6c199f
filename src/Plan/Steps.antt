-- ===== src/Plan/Steps.antt =====
-- pkgs/extensions/tool-plan/src/plan.rs: the plan and its operations. A number of a step is a `u32`,
-- and the one of a new step wraps around, as the release build has it.
use jan_klod.Common.{
  ℕ, ◌+◌, ◌%◌, String, List, [], ◌∷◌, ◌++◌, map, Option, none, some, Bool, true, false, not, str_eq,
  trim, is_empty, format, leb, ◌==◌, max, any, retain, length, filter_map, Result, ok, err, ok_or,
  if◌then◌else◌,
}
use jan_klod.Common
use jan_klod.Json.{
  Codec, Value, object, array, string, number, unsigned, end, field, get, as_u64, as_array,
  of_items, str_field, ◌>>=◌,
}
use jan_klod.Permission.Rules.{or_else, some_if, parsed}

abbrev pub u32_max : ℕ
u32_max = 4294967295

pub data State : Type 0 where
  todo doing done : State

pub record Step : Type 0 where
  pub id : ℕ
  pub text : String
  pub state : State

pub record Plan : Type 0 where
  pub steps : List Step
  pub issued : ℕ

abbrev pub empty_plan : Plan
empty_plan = record { steps = []; issued = 0 }

pub data PlanError : Type 0 where
  bad_arguments : String → PlanError
  no_such_step : ℕ → PlanError
  empty_text : PlanError

abbrev pub state_text : State → String
state_text todo = "todo"
state_text doing = "doing"
state_text done = "done"

unfoldable pub parse_state : String → Option State
parse_state text =
    if str_eq text "todo"
    then some todo
    else if str_eq text "doing"
    then some doing
    else some_if (str_eq text "done") done

-- `u32::try_from(..).ok()`.
abbrev pub to_u32 : ℕ → Option ℕ
to_u32 n = some_if (leb n u32_max) n

-- A stored step, if it is whole.
unfoldable pub parse_step : Value → Option Step
parse_step step = do
  id ← get step "id" >>= as_u64 >>= to_u32
  text ← str_field step "text"
  state ← str_field step "state" >>= parse_state
  some (record { id = id; text = text; state = state })

unfoldable pub max_id : List Step → ℕ
max_id [] = 0
max_id (s ∷ ss) = max s.id (max_id ss)

abbrev pub read_plan : Value → List Value → Plan
read_plan value stored =
    let steps = filter_map parse_step stored in
    record {
      steps = steps;
      issued = or_else (get value "issued" >>= as_u64 >>= to_u32) (max_id steps);
    }

unfoldable pub step_value : Step → Value
step_value step = object (
    field "id" (number (unsigned step.id))
      (field "state" (string (state_text step.state)) (field "text" (string step.text) end)))

unfoldable pub plan_value : Plan → Value
plan_value plan = object (
    field "issued" (number (unsigned plan.issued))
      (field "steps" (array (of_items (map step_value plan.steps))) end))

unfoldable pub add_step : String → Plan → Result Plan PlanError
add_step text plan =
    if is_empty text
    then err empty_text
    else ok (record {
      steps =
          plan.steps
          ++ record { id = (plan.issued + 1) % (u32_max + 1); text = text; state = todo } ∷ [];
      issued = (plan.issued + 1) % (u32_max + 1);
    })

-- `find` with `iter_mut`: the first step of that number.
unfoldable pub set_first : ℕ → State → List Step → List Step
set_first id state [] = []
set_first id state (s ∷ ss) =
    if s.id == id then record s { state = state } ∷ ss else s ∷ set_first id state ss

unfoldable pub set_state : ℕ → State → Plan → Result Plan PlanError
set_state id state plan =
    if any (λ s. s.id == id) plan.steps
    then ok (record plan { steps = set_first id state plan.steps })
    else err (no_such_step id)

abbrev pub others : ℕ → List Step → List Step
others id = retain (λ s. not (s.id == id))

unfoldable pub remove_step : ℕ → Plan → Result Plan PlanError
remove_step id plan =
    if length (others id plan.steps) == length plan.steps
    then err (no_such_step id)
    else ok (record plan { steps = others id plan.steps })

-- What the arguments ask for, as far as they name an operation.
unfoldable pub call_id : Value → Result ℕ PlanError
call_id call = ok_or (get call "id" >>= as_u64 >>= to_u32) (bad_arguments "`id` must be a number")

abbrev pub call_text : Value → Result String PlanError
call_text call = ok_or (str_field call "text") (bad_arguments "`text` must be a string")

abbrev pub call_state : Value → Result State PlanError
call_state call =
    ok_or (str_field call "state" >>= parse_state) (bad_arguments "`state` is todo, doing or done")

unfoldable pub run_op : String → Value → Plan → Result Plan PlanError
run_op op call plan =
    if str_eq op "list"
    then ok plan
    else if str_eq op "add"
    then Common.◌>>=◌ (call_text call) (λ text. add_step (trim text) plan)
    else if str_eq op "set-state"
    then Common.◌>>=◌ (call_id call)
        (λ id. Common.◌>>=◌ (call_state call) (λ state. set_state id state plan))
    else if str_eq op "remove"
    then Common.◌>>=◌ (call_id call) (λ id. remove_step id plan)
    else if str_eq op "clear"
    then ok (record plan { steps = [] })
    else err (bad_arguments (format ("unknown op `" ∷ op ∷ "`" ∷ [])))

unfoldable pub apply_call : Value → Plan → Result Plan PlanError
apply_call call plan =
    Common.◌>>=◌ (ok_or (str_field call "op") (bad_arguments "no `op`")) (λ op. run_op op call plan)

module _ (codec : Codec) where
  unfoldable pub parse_plan : Option String → Plan
  parse_plan stored =
      let value = stored >>= λ text. parsed (codec.from_str text) in
      or_else (value >>= λ v. get v "steps" >>= as_array >>= λ steps. some (read_plan v steps))
        empty_plan

  abbrev pub read_call : Result Value String → Plan → Result Plan PlanError
  read_call (ok call) plan = apply_call call plan
  read_call (err error) plan = err (bad_arguments error)

  -- The plan after the call: where it is refused, the plan is as it was.
  unfoldable pub apply : String → Plan → Result Plan PlanError
  apply arguments plan = read_call (codec.from_str arguments) plan

  unfoldable pub render : Plan → String
  render plan = codec.to_string (plan_value plan)
