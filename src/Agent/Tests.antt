-- ===== src/Agent/Tests.antt =====
-- A turn of pkgs/host/agent/src/lib.rs on an empty log: a tool that asks the user, a call that is refused, an answer.
use jan_klod.Common.{ℕ, ◌≡◌, refl, String, [], Option, none, some, true, false, inl, arith}
use jan_klod.Turn.{UserPrompt}
use jan_klod.Intercept.Types.{ToolInvoker, was_truncated}
use jan_klod.Intercept.Dispatch.{dispatch, settle, conclude, judge, advance, subscribes}
use jan_klod.Conductor.Effects.{default_limits, continue_with, ◌>>=◌}
use jan_klod.Conductor.Provider.{
  validate, fallback_loop, fallback_from, complete_with_fallback, warn_truncated, check_completion,
  attempt, retry_loop, complete_validated,
}
use jan_klod.Conductor.Tools.{gated_invoke, run_tool_call, run_tool_calls}
use jan_klod.Conductor.Phases.{
  shape_from, shape, post_phase_from, post_phase, note_incomplete, cut_short, build_initial_request,
}
use jan_klod.Conductor.Turns.{
  RunResult, answered, unless_capped, follow, handle_no_tool_calls, after_tool_calls,
  handle_tool_calls, handle_answer, send_text, after_text, after_completion, round, after_round,
  turn_loop, shape_then, shape_all, finish_turn, run_shaped, run_turn,
}
use jan_klod.Conductor.Tests.{World, start, parts, parts-Settling}
use jan_klod.Agent.Poisoned.{UseDriver, IsUntouched, run_and_persist-IsUntouched}
use jan_klod.Session.Store.{session_rows, order_by_seq}
use jan_klod.Session.Persist.{
  Logged, append_event, append_encoded, log_user_message, persisting_sink, persisting_driver,
}
use jan_klod.Agent.{logged_parts, run_and_persist}
use jan_klod.Agent.Appends.{
  OnlyAppends, append_encoded_keeps, IsSound, Grows, run_and_persist-IsSound, run_and_persist-Grows,
}

abbrev digest : String → String
digest s = s

abbrev clock : World → ℕ
clock w = 7

abbrev question : UserPrompt
question = record { question = "Which one?"; options = []; default_answer = "" }

abbrev tools : ToolInvoker (Logged World)
tools = record {
  bind_session = λ name s. s;
  invoke_asking = λ call driver s. (
    some (record { content = (driver.ask question s).0; failed = false }),
    (driver.ask question s).1,
  );
}

tools-OnlyAppends : OnlyAppends digest clock parts tools "s"
unfolding persisting_driver
tools-OnlyAppends = record {
  binding = λ P h name s k. k;
  invoking = λ P h call s k.
      append_encoded_keeps digest clock parts tools "s" P h _ _ _ _
        (append_encoded_keeps digest clock parts tools "s" P h _ _ _ s k);
}

abbrev before : Logged World
before = record {
  inner = start;
  store = record { events = [] };
  poisoned = false;
  sink_warned = false;
  driver_warned = false;
  stderr = [];
}

abbrev outcome : Option (RunResult × Logged World)
outcome = run_and_persist digest clock parts tools "s" 64 default_limits "Tidy up." none before

abbrev end_of : Option (RunResult × Logged World) → Logged World
end_of none = before
end_of (some (r, s)) = s

outcome_run : outcome ≡ some (answered "All done." true, end_of outcome)
unfolding run_and_persist logged_parts persisting_sink persisting_driver log_user_message
    append_encoded append_event run_turn build_initial_request shape_all shape_then shape shape_from
    run_shaped turn_loop round after_round after_completion after_text send_text handle_answer
    handle_tool_calls after_tool_calls handle_no_tool_calls follow unless_capped cut_short
    note_incomplete finish_turn post_phase post_phase_from run_tool_calls run_tool_call gated_invoke
    complete_validated retry_loop attempt check_completion warn_truncated complete_with_fallback
    fallback_from fallback_loop validate dispatch settle conclude judge advance subscribes
    was_truncated continue_with ◌>>=◌
outcome_run = refl

no_rows : session_rows before.store "s" ≡ []
unfolding session_rows order_by_seq
no_rows = refl

run_and_persist-IsSound_example : IsSound digest "s" (end_of outcome).store
run_and_persist-IsSound_example =
    run_and_persist-IsSound digest clock parts tools "s" tools-OnlyAppends 64 default_limits
      "Tidy up." none before (end_of outcome) (answered "All done." true) outcome_run (inl no_rows)

run_and_persist-Grows_example : Grows "s" before.store (end_of outcome).store
run_and_persist-Grows_example =
    run_and_persist-Grows digest clock parts tools "s" tools-OnlyAppends 64 default_limits
      "Tidy up." none before (end_of outcome) (answered "All done." true) outcome_run

tools-UseDriver : UseDriver digest clock parts tools "s"
tools-UseDriver = record {
  binding = λ P inner name s k. k;
  invoking = λ P inner asks follows call s k. asks question s k;
}

abbrev poisoned_before : Logged World
poisoned_before = record before { poisoned = true }

run_and_persist-IsUntouched_example :
    (r : RunResult) × (s' : Logged World) × (run_and_persist digest clock parts tools "s" 64
        default_limits "Tidy up." none poisoned_before
      ≡ some (r, s'))
    × IsUntouched "s" before.store [] s'
run_and_persist-IsUntouched_example =
    run_and_persist-IsUntouched digest clock parts tools "s" 64 default_limits "Tidy up." none
      poisoned_before tools-UseDriver parts-Settling (omega arith) (omega arith) refl
