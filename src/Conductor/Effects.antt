-- ===== src/Conductor/Effects.antt =====
-- pkgs/host/agent/src/conductor.rs: the parts that a turn runs on, and the effects of its code.
-- All attached parts act on one state `W`, so whatever they share is shared here too. `none` is a
-- run that has not come back yet: a dispatch or the loop has spent its fuel.
use jan_klod.Common.{ℕ, List, Option, none, some, Bool, true, false}
use jan_klod.Json.{Codec}
use jan_klod.Turn.{Driver, EventSink, Event, Flow, continue, stop}
use jan_klod.Intercept.Types.{Phase, HookState, Outcome, Interceptor, Completer, ToolInvoker}
use jan_klod.Intercept.Dispatch

pub record Limits : Type 0 where
  pub max_iterations : ℕ

-- `DEFAULT_MAX_ITERATIONS`, and `Limits::default`.
abbrev pub default_limits : Limits
default_limits = record { max_iterations = 8 }

abbrev pub max_retries : ℕ
max_retries = 3

-- `ask_fuel` bounds how often one interceptor may ask at one dispatch.
pub record Parts (W : Type 0) : Type 0 where
  pub interceptors : List (Interceptor W)
  pub providers : List (Completer W)
  pub tools : ToolInvoker W
  pub driver : Driver W
  pub sink : EventSink W
  pub codec : Codec
  pub ask_fuel : ℕ

-- A step on the state that always comes back, and one that may not.
abbrev pub State : Type 0 → Type 0 → Type 0
State W A = W → A × W

abbrev pub M : Type 0 → Type 0 → Type 0
M W A = W → Option (A × W)

unfoldable pub continue_with : {W A B : Type 0} → Option (A × W) → (A → M W B) → Option (B × W)
continue_with none f = none
continue_with (some (a, w)) f = f a w

infixl 5 ◌>>=◌
unfoldable pub ◌>>=◌ : {W A B : Type 0} → M W A → (A → M W B) → M W B
unfolding continue_with
◌>>=◌ m f w = continue_with (m w) f

abbrev pub pure : {W A : Type 0} → A → M W A
pure a w = some (a, w)

abbrev pub lift : {W A : Type 0} → State W A → M W A
lift f w = some (f w)

module _ {W : Type 0} (p : Parts W) where
  -- `dispatcher.dispatch(phase, &mut state, driver)`.
  abbrev pub dispatch_phase : Phase → HookState → M W (Outcome × HookState)
  dispatch_phase phase state = Dispatch.dispatch p.driver phase p.ask_fuel p.interceptors state

  abbrev pub emit : Event → M W Flow
  emit event = lift (p.sink.emit event)

-- `flow == Flow::Stop`.
abbrev pub is_stop : Flow → Bool
is_stop continue = false
is_stop stop = true
