-- ===== src/Session/Projection.antt =====
-- pkgs/host/session/src/projection.rs: what a session's log says was said.
pub mod Replay
use jan_klod.Common.{
  ℕ, zero, suc, ◌+◌, ◌-◌, String, Bool, true, false, List, [], ◌∷◌, map, Option, none, some, str_eq,
  leb, ◌==◌, length, drop, filter_map, Result, ok, err, if◌then◌else◌,
}
use jan_klod.Json.{Codec, ◌>>=◌}
use jan_klod.Turn.{
  Event, Message, text_delta, tool_invoked, tool_result, warning, done, user, assistant, tool,
}
use jan_klod.Session.EventLog.{
  DecodeError, Record, user_message, ask, answer, follow_up, extension_loaded, event, decode_record,
  kind_user_message,
}
use jan_klod.Session.Store.{LoggedEvent}

-- The messages of the turn events: the answer and the tools' results.
unfoldable pub event_message : Event → Option Message
event_message (done text agentic) =
    some (record { role = assistant; content = text; tool_call_id = none })
event_message (tool_result outcome) =
    some
      (record { role = tool; content = outcome.content; tool_call_id = some outcome.tool_call_id })
event_message (text_delta t) = none
event_message (tool_invoked call) = none
event_message (warning m) = none

unfoldable pub message_for : Record → Option Message
message_for (user_message content) =
    some (record { role = user; content = content; tool_call_id = none })
message_for (follow_up content) =
    some (record { role = user; content = content; tool_call_id = none })
message_for (ask q o d) = none
message_for (answer a) = none
message_for (extension_loaded s l d) = none
message_for (event e) = event_message e

-- `Result::ok`.
abbrev pub readable : Result Record DecodeError → Option Record
readable (ok r) = some r
readable (err e) = none

unfoldable pub place : Codec → LoggedEvent → Option (ℕ × Message)
place codec row = do
  found ← readable (decode_record codec row.kind row.payload)
  message ← message_for found
  some (row.seq, message)

unfoldable pub placed_transcript : Codec → List LoggedEvent → List (ℕ × Message)
placed_transcript codec events = filter_map (place codec) events

unfoldable pub transcript : Codec → List LoggedEvent → List Message
transcript codec events = map (λ (placed : ℕ × Message). placed.1) (placed_transcript codec events)

abbrev pub starts_turn : LoggedEvent → Bool
starts_turn row = str_eq row.kind kind_user_message

-- The positions of the rows that start a turn, counted from `n`.
unfoldable pub turn_starts : ℕ → List LoggedEvent → List ℕ
turn_starts n [] = []
turn_starts n (row ∷ rows) =
    if starts_turn row then n ∷ turn_starts (n + 1) rows else turn_starts (n + 1) rows

-- `starts[i]`, where `i` is within the list.
abbrev pub nth : List ℕ → ℕ → ℕ
nth [] i = 0
nth (x ∷ xs) zero = x
nth (x ∷ xs) (suc i) = nth xs i

unfoldable pub last_turns : List LoggedEvent → ℕ → List LoggedEvent
last_turns events turns =
    let starts = turn_starts 0 events in
    if turns == 0
    then []
    else if leb (length starts) turns
    then events
    else drop (nth starts (length starts - turns)) events
