-- ===== src/Agent.antt =====
-- pkgs/host/agent/src/lib.rs: a turn of a session, with its history read from the log and its events
-- written to it.
pub mod Appends
pub mod Poisoned
pub mod Returns
pub mod Tests
use jan_klod.Common.{
  ℕ, String, Bool, true, false, List, [], ◌∷◌, map, Option, none, some, if◌then◌else◌,
}
use jan_klod.Json.{Codec}
use jan_klod.Turn.{Message, Driver, EventSink}
use jan_klod.Intercept.Types.{Interceptor, Completer, ToolInvoker, InterceptInput, PendingRequest}
use jan_klod.Conductor.Effects.{Parts, M, Limits}
use jan_klod.Conductor.Turns.{RunResult, run_turn}
use jan_klod.Session.Store.{Store, recent_turns}
use jan_klod.Session.Projection.{transcript}
use jan_klod.Session.Persist.{Logged, log_user_message, persisting_sink, persisting_driver, within}

abbrev pub replayed_turns : ℕ
replayed_turns = 20

unfoldable pub replay : Codec → Store → String → List Message
replay codec store session = transcript codec (recent_turns store session replayed_turns)

-- Empty where the lock is poisoned.
abbrev pub history_of : {W : Type 0} → Codec → String → Logged W → List Message
history_of codec session s = if s.poisoned then [] else replay codec s.store session

module _ {W : Type 0} (sha256 : String → String) (now : W → ℕ) (p : Parts W)
    (tools : ToolInvoker (Logged W)) (session : String) where
  -- An interceptor and a provider know nothing of the log; a tool reaches it by the driver it is handed.
  abbrev pub lift_interceptor : Interceptor W → Interceptor (Logged W)
  lift_interceptor i = record {
    id = i.id;
    subscribed_phases = i.subscribed_phases;
    intercept = λ input. within p.codec sha256 now session (i.intercept input);
  }

  abbrev pub lift_provider : Completer W → Completer (Logged W)
  lift_provider c = record {
    id = c.id;
    complete = λ request. within p.codec sha256 now session (c.complete request);
  }

  unfoldable pub logged_parts : Parts (Logged W)
  logged_parts = record {
    interceptors = map lift_interceptor p.interceptors;
    providers = map lift_provider p.providers;
    tools = tools;
    driver = persisting_driver p.codec sha256 now session p.driver;
    sink = persisting_sink p.codec sha256 now session p.sink;
    codec = p.codec;
    ask_fuel = p.ask_fuel;
  }

  abbrev pub unwarned : Logged W → Logged W
  unwarned s = record s { sink_warned = false; driver_warned = false }

  unfoldable pub run_and_persist : ℕ → Limits → String → Option String → M (Logged W) RunResult
  run_and_persist loop_fuel limits message principal s =
      run_turn logged_parts loop_fuel limits session message (history_of p.codec session s)
        principal (log_user_message p.codec sha256 now session) (unwarned s)
