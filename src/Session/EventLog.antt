-- ===== src/Session/EventLog.antt =====
-- pkgs/host/session/src/event_log.rs: the stored form of a turn's events, one row each.
pub mod RoundTrip
use jan_klod.Common.{
  ℕ, String, Bool, true, false, List, [], ◌∷◌, Option, none, some, str_eq, format, min, ltb, Result,
  ok, err, ok_or, map, ◌>>=◌, if◌then◌else◌,
}
use jan_klod.Json.{
  Codec, Value, Items, Fields, boolean, number, string, array, object, end, field, unsigned, get,
  as_str, as_bool, as_u64, as_array, of_items,
}
use jan_klod.Json
use jan_klod.Turn.{
  Event, UserPrompt, ToolCall, ToolOutcome, text_delta, tool_invoked, tool_result, warning, done,
}

abbrev pub event_log_version : ℕ
event_log_version = 1

abbrev pub u32_max : ℕ
u32_max = 4294967295

pub data DecodeError : Type 0 where
  unknown_kind : String → DecodeError
  not_an_event : String → DecodeError
  unsupported_version : ℕ → DecodeError
  malformed : String → DecodeError

abbrev pub kind_user_message : String
kind_user_message = "user-message"

abbrev pub kind_ask : String
kind_ask = "ask"

abbrev pub kind_answer : String
kind_answer = "answer"

abbrev pub kind_follow_up : String
kind_follow_up = "follow-up"

abbrev pub kind_extension_loaded : String
kind_extension_loaded = "extension-loaded"

-- The object that `envelope` prints.
abbrev pub envelope_value : Value → Value
envelope_value payload =
    object (field "data" payload (field "v" (number (unsigned event_log_version)) end))

abbrev pub envelope : Codec → Value → String
envelope codec payload = codec.to_string (envelope_value payload)

-- An object of one text field, the shape of most payloads.
abbrev pub text_object : String → String → Value
text_object key text = object (field key (string text) end)

-- The `data` of an event, as `encode` builds it.
unfoldable pub event_data : Event → Value
event_data (text_delta text) = text_object "text" text
event_data (tool_invoked call) = object (
    field "arguments" (string call.arguments)
      (field "id" (string call.id) (field "name" (string call.name) end)))
event_data (tool_result outcome) = object (
    field "content" (string outcome.content)
      (field "failed" (boolean outcome.failed) (field "id" (string outcome.tool_call_id) end)))
event_data (warning message) = text_object "message" message
event_data (done text agentic) =
    object (field "agentic" (boolean agentic) (field "answer" (string text) end))

unfoldable pub event_kind : Event → String
event_kind (text_delta text) = "text-delta"
event_kind (tool_invoked call) = "tool-invoked"
event_kind (tool_result outcome) = "tool-result"
event_kind (warning message) = "warning"
event_kind (done text agentic) = "done"

unfoldable pub encode : Codec → Event → String × String
encode codec event = (event_kind event, envelope codec (event_data event))

pub data Record : Type 0 where
  user_message : String → Record
  ask : String → List String → String → Record
  answer : String → Record
  follow_up : String → Record
  extension_loaded : String → Bool → String → Record
  event : Event → Record

-- The `data` of the rows that `PersistingDriver` and `log_user_message` write.
abbrev pub ask_data : UserPrompt → Value
ask_data prompt = object (
    field "default" (string prompt.default_answer) (
      field "options" (array (of_items (map string prompt.options)))
        (field "question" (string prompt.question) end)))

abbrev pub answer_data : String → Value
answer_data reply = text_object "answer" reply

abbrev pub message_data : String → Value
message_data message = text_object "message" message

-- pkgs/host/agent/src/lib.rs: the row of `record_load`.
abbrev pub load_data : String → Bool → String → Value
load_data stem loaded detail = object (
    field "detail" (string detail)
      (field "loaded" (boolean loaded) (field "stem" (string stem) end)))

-- What `open_envelope` makes of an envelope that was read.
unfoldable pub check_version : ℕ → Value → Result Value DecodeError
check_version version envelope =
    if ltb event_log_version (min version u32_max)
    then err (unsupported_version (min version u32_max))
    else ok_or (get envelope "data") (malformed "no `data` in the envelope")

unfoldable pub open_value : Value → Result Value DecodeError
open_value envelope = do
  version ← ok_or (Json.◌>>=◌ (get envelope "v") as_u64) (malformed "no `v` in the envelope")
  check_version version envelope

abbrev pub or_malformed : Result Value String → Result Value DecodeError
or_malformed (ok v) = ok v
or_malformed (err e) = err (malformed e)

unfoldable pub open_envelope : Codec → String → Result Value DecodeError
open_envelope codec payload = do
  envelope ← or_malformed (codec.from_str payload)
  open_value envelope

unfoldable pub text : String → Value → String → Result String DecodeError
text kind payload key =
    ok_or (Json.◌>>=◌ (get payload key) as_str)
      (malformed (format ("`" ∷ kind ∷ "` has no string `" ∷ key ∷ "`" ∷ [])))

-- The `collect` of `strings`: the first entry that is no text is an error.
unfoldable pub all_strings : String → String → List Value → Result (List String) DecodeError
all_strings kind key [] = ok []
all_strings kind key (v ∷ vs) = do
  s ←
      ok_or (as_str v)
        (malformed (format ("`" ∷ kind ∷ "`'s `" ∷ key ∷ "` holds a non-string" ∷ [])))
  rest ← all_strings kind key vs
  ok (s ∷ rest)

unfoldable pub strings : String → Value → String → Result (List String) DecodeError
strings kind payload key = do
  vs ←
      ok_or (Json.◌>>=◌ (get payload key) as_array)
        (malformed (format ("`" ∷ kind ∷ "` has no list `" ∷ key ∷ "`" ∷ [])))
  all_strings kind key vs

unfoldable pub bool_or : Value → String → DecodeError → Result Bool DecodeError
bool_or payload key e = ok_or (Json.◌>>=◌ (get payload key) as_bool) e

abbrev pub or_false : Option Bool → Bool
or_false none = false
or_false (some b) = b

-- The arms of `decode_record`, on the `data` of the envelope.
unfoldable pub decode_data : String → Value → Result Record DecodeError
decode_data kind payload =
    if str_eq kind kind_user_message
    then (do message ← text kind payload "message"; ok (user_message message))
    else if str_eq kind kind_ask
    then (do
      question ← text kind payload "question"
      options ← strings kind payload "options"
      default ← text kind payload "default"
      ok (ask question options default))
    else if str_eq kind kind_answer
    then (do reply ← text kind payload "answer"; ok (answer reply))
    else if str_eq kind kind_follow_up
    then (do message ← text kind payload "message"; ok (follow_up message))
    else if str_eq kind kind_extension_loaded
    then (do
      stem ← text kind payload "stem"
      loaded ←
          bool_or payload "loaded"
            (malformed (format ("`" ∷ kind ∷ "` has no boolean `loaded`" ∷ [])))
      detail ← text kind payload "detail"
      ok (extension_loaded stem loaded detail))
    else if str_eq kind "text-delta"
    then (do delta ← text kind payload "text"; ok (event (text_delta delta)))
    else if str_eq kind "tool-invoked"
    then (do
      id ← text kind payload "id"
      name ← text kind payload "name"
      arguments ← text kind payload "arguments"
      ok (event (tool_invoked (record { id = id; name = name; arguments = arguments }))))
    else if str_eq kind "tool-result"
    then (do
      id ← text kind payload "id"
      content ← text kind payload "content"
      ok (
          event (
            tool_result (record {
              tool_call_id = id;
              content = content;
              failed = or_false (Json.◌>>=◌ (get payload "failed") as_bool);
            }))))
    else if str_eq kind "warning"
    then (do message ← text kind payload "message"; ok (event (warning message)))
    else if str_eq kind "done"
    then (do
      reply ← text kind payload "answer"
      agentic ← bool_or payload "agentic" (malformed "`done` has no bool `agentic`")
      ok (event (done reply agentic)))
    else err (unknown_kind kind)

unfoldable pub decode_record : Codec → String → String → Result Record DecodeError
decode_record codec kind payload = do opened ← open_envelope codec payload; decode_data kind opened

abbrev pub only_event : String → Record → Result Event DecodeError
only_event kind (event e) = ok e
only_event kind (user_message m) = err (not_an_event kind)
only_event kind (ask q o d) = err (not_an_event kind)
only_event kind (answer a) = err (not_an_event kind)
only_event kind (follow_up m) = err (not_an_event kind)
only_event kind (extension_loaded s l d) = err (not_an_event kind)

unfoldable pub decode : Codec → String → String → Result Event DecodeError
decode codec kind payload = do found ← decode_record codec kind payload; only_event kind found
