-- ===== src/Session/Persist.antt =====
-- pkgs/host/session/src/event_log.rs: the sink and the driver that log a turn as it runs. Of a store
-- that fails, the poisoned lock is modelled; `now` is the clock, read off the state of the other parts.
use jan_klod.Common.{
  ℕ, String, Bool, true, false, List, [], ◌∷◌, ◌++◌, Option, none, some, format, if◌then◌else◌,
}
use jan_klod.Json.{Codec, Value}
use jan_klod.Turn.{Driver, EventSink}
use jan_klod.Session.EventLog.{
  encode, envelope, ask_data, answer_data, message_data, kind_user_message, kind_ask, kind_answer,
  kind_follow_up,
}
use jan_klod.Session.Store.{Store, append_event_at}

-- What a turn runs on: the state of the other parts, the store behind its lock, the `warned` flags of
-- the sink and of the driver, and what was printed.
pub record Logged (W : Type 0) : Type 0 where
  pub inner : W
  pub store : Store
  pub poisoned : Bool
  pub sink_warned : Bool
  pub driver_warned : Bool
  pub stderr : List String

abbrev pub warning_line : String → String
warning_line session = format (
    "WARN [core] logging events for session " ∷ session
    ∷ " failed: storage backend error: the store lock is poisoned. The turn continues; further failures this turn are not repeated."
    ∷ [])

module _ {W : Type 0} (codec : Codec) (sha256 : String → String) (now : W → ℕ)
    (session : String) where
  -- The store after `append_event` under the lock.
  unfoldable pub append_event : String → String → Logged W → Logged W
  append_event kind payload s = record s {
    store = (append_event_at sha256 s.store session kind payload (now s.inner)).1;
  }

  -- The flag afterwards, with the state.
  unfoldable pub append_encoded : Bool → String → String → Logged W → Bool × Logged W
  append_encoded warned kind payload s =
      if s.poisoned
      then (true, if warned then s else record s { stderr = s.stderr ++ warning_line session ∷ [] })
      else (warned, append_event kind payload s)

  abbrev pub append : Bool → String → Value → Logged W → Bool × Logged W
  append warned kind value s = append_encoded warned kind (envelope codec value) s

  abbrev pub sink_append : String → String → Logged W → Logged W
  sink_append kind payload s =
      let (warned, s1) = append_encoded s.sink_warned kind payload s in
      record s1 { sink_warned = warned }

  abbrev pub driver_append : String → Value → Logged W → Logged W
  driver_append kind value s =
      let (warned, s1) = append s.driver_warned kind value s in record s1 { driver_warned = warned }

  unfoldable pub log_user_message : String → Logged W → Logged W
  log_user_message message s = (append false kind_user_message (message_data message) s).1

  -- A step of the other parts.
  abbrev pub within : {A : Type 0} → (W → A × W) → Logged W → A × Logged W
  within step s = let (a, w) = step s.inner in (a, record s { inner = w })

  unfoldable pub persisting_sink : EventSink W → EventSink (Logged W)
  persisting_sink sink = record {
    emit = λ event s.
        within (sink.emit event) (sink_append (encode codec event).0 (encode codec event).1 s);
  }

  abbrev pub log_answer : String × Logged W → String × Logged W
  log_answer (answer, s) = (answer, driver_append kind_answer (answer_data answer) s)

  abbrev pub log_follow_up : Option String × Logged W → Option String × Logged W
  log_follow_up (none, s) = (none, s)
  log_follow_up (some message, s) =
      (some message, driver_append kind_follow_up (message_data message) s)

  unfoldable pub persisting_driver : Driver W → Driver (Logged W)
  persisting_driver driver = record {
    ask = λ prompt s.
        log_answer (within (driver.ask prompt) (driver_append kind_ask (ask_data prompt) s));
    follow_up = λ s. log_follow_up (within driver.follow_up s);
  }
