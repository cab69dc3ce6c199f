-- ===== src/Session/EventLog/RoundTrip.antt =====
-- pkgs/host/session/src/event_log.rs: what is written is read back, and what a newer build wrote is
-- refused.
use jan_klod.Common.{
  ℕ, ◌<◌, ◌≡◌, refl, ◌∙◌, String, List, [], ◌∷◌, some, min, lt→ltb, arith, ok, err, map,
}
use jan_klod.Json.{Codec, Value, string, unsigned, number, get, of_items, items}
use jan_klod.Turn.{Event, text_delta, tool_invoked, tool_result, warning, done}
use jan_klod.Session.EventLog.{
  unsupported_version, event_log_version, u32_max, kind_user_message, kind_ask, kind_answer,
  kind_follow_up, kind_extension_loaded, envelope, envelope_value, event_data, event_kind, encode,
  Record, user_message, ask, answer, follow_up, extension_loaded, event, check_version, open_value,
  open_envelope, text, strings, all_strings, bool_or, decode_data, decode_record, decode, ask_data,
  answer_data, message_data, load_data,
}

module _ (codec : Codec) where
  -- The parser reads back what the printer wrote of `v`.
  abbrev pub ReadsBack : Value → Type 0
  ReadsBack v = codec.from_str (codec.to_string v) ≡ ok v

  decode_record-envelope :
      (kind : String) (payload : Value)
      → ReadsBack (envelope_value payload)
      → decode_record codec kind (envelope codec payload) ≡ decode_data kind payload
  unfolding decode_record open_envelope open_value check_version
  decode_record-envelope kind payload h = rw h

-- The kind and the `data` that a record is written with: a turn event by `encode`, the others by the
-- driver's and the agent's own log calls.
abbrev pub row_kind : Record → String
row_kind (user_message m) = kind_user_message
row_kind (ask q o d) = kind_ask
row_kind (answer a) = kind_answer
row_kind (follow_up m) = kind_follow_up
row_kind (extension_loaded s l d) = kind_extension_loaded
row_kind (event e) = event_kind e

abbrev pub row_data : Record → Value
row_data (user_message m) = message_data m
row_data (ask q o d) = ask_data (record { question = q; options = o; default_answer = d })
row_data (answer a) = answer_data a
row_data (follow_up m) = message_data m
row_data (extension_loaded s l d) = load_data s l d
row_data (event e) = event_data e

all_strings-map :
    (kind key : String) (ss : List String)
    → all_strings kind key (items (of_items (map string ss))) ≡ ok ss
unfolding all_strings
all_strings-map kind key [] = refl
all_strings-map kind key (s ∷ ss) = rw (all_strings-map kind key ss)

decode_data-event : (e : Event) → decode_data (event_kind e) (event_data e) ≡ ok (event e)
unfolding decode_data event_kind event_data text bool_or
decode_data-event (text_delta t) = refl
decode_data-event (tool_invoked call) = refl
decode_data-event (tool_result outcome) = refl
decode_data-event (warning m) = refl
decode_data-event (done t agentic) = refl

decode_data-row : (r : Record) → decode_data (row_kind r) (row_data r) ≡ ok r
unfolding decode_data text bool_or strings
decode_data-row (user_message m) = refl
decode_data-row (ask q o d) = rw (all_strings-map kind_ask "options" o)
decode_data-row (answer a) = refl
decode_data-row (follow_up m) = refl
decode_data-row (extension_loaded s l d) = refl
decode_data-row (event e) = decode_data-event e

module _ (codec : Codec) where
  -- Whatever a row was written from is what `decode_record` reads from it, where the JSON library
  -- reads back the envelope that it printed.
  pub decode_record-row :
      (r : Record)
      → ReadsBack codec (envelope_value (row_data r))
      → decode_record codec (row_kind r) (envelope codec (row_data r)) ≡ ok r
  decode_record-row r h =
      decode_record-envelope codec (row_kind r) (row_data r) h ∙ decode_data-row r

  -- A turn event that is encoded and decoded is the event itself, where the JSON library reads back
  -- the envelope that it printed.
  decode-encode :
      (e : Event)
      → ReadsBack codec (envelope_value (event_data e))
      → decode codec (encode codec e).0 (encode codec e).1 ≡ ok e
  unfolding decode encode
  decode-encode e h =
      rw (decode_record-envelope codec (event_kind e) (event_data e) h, decode_data-event e)

  -- A row whose envelope carries a version above this build's is refused, whatever its kind and its
  -- data, with the version that was found, or 2^32 - 1 where it does not fit a `u32`.
  pub decode_record-newer :
      (kind payload : String) (v : Value) (n : ℕ)
      → codec.from_str payload ≡ ok v
      → get v "v" ≡ some (number (unsigned n))
      → event_log_version < n
      → decode_record codec kind payload ≡ err (unsupported_version (min n u32_max))
  unfolding decode_record open_envelope open_value check_version
  decode_record-newer kind payload v n read version newer =
      rw (read, version, lt→ltb event_log_version (min n u32_max) (omega arith))
