-- ===== src/Session/Tests.antt =====
-- Runs of pkgs/host/session/src/event_log.rs and projection.rs, with a JSON library that knows one text.
use jan_klod.Common.{ℕ, String, str_eq, if◌then◌else◌, ◌≡◌, refl, true, [], ◌∷◌, ok, err}
use jan_klod.Json.{Codec, Value}
use jan_klod.Turn.{Event, done}
use jan_klod.Session.EventLog.{
  Record, user_message, event, event_kind, envelope, envelope_value, event_data, decode_record,
}
use jan_klod.Session.EventLog.RoundTrip.{row_kind, row_data, decode_record-row}
use jan_klod.Session.Projection.{placed_transcript}
use jan_klod.Session.Store.{LoggedEvent}
use jan_klod.Session.Projection.Replay.{
  IsWrittenFrom, Origin, garbled, Replays, placed_transcript-Replays,
}

-- A JSON library that prints every value alike, and reads back `v`.
abbrev codec_of : Value → Codec
codec_of v = record { from_str = λ s. ok v; to_string = λ x. "{}" }

abbrev said_hello : Record
said_hello = user_message "hello"

decode_record-row_example :
    decode_record
      (codec_of (envelope_value (row_data said_hello)))
      (row_kind said_hello)
      (envelope (codec_of (envelope_value (row_data said_hello))) (row_data said_hello))
    ≡ ok said_hello
decode_record-row_example =
    decode_record-row (codec_of (envelope_value (row_data said_hello))) said_hello refl

abbrev finished : Event
finished = done "All done." true

abbrev finished_codec : Codec
finished_codec = codec_of (envelope_value (event_data finished))

-- A JSON library that knows one text, and no other.
abbrev strict : Codec
strict = record {
  from_str =
      λ s. if str_eq s "{}" then ok (envelope_value (event_data finished)) else err "no JSON";
  to_string = λ x. "{}";
}

abbrev log_row : ℕ → String → LoggedEvent
log_row seq payload = record { session = "s"; seq = seq; ts = 7; kind = "done"; payload = payload }

finished_row : (seq : ℕ) → IsWrittenFrom strict (log_row seq "{}") (event finished)
unfolding event_kind
finished_row seq = record { of_kind = refl; of_data = refl; reads_back = refl }

placed_transcript-Replays_example :
    Replays strict
      (log_row 3 "{}" ∷ log_row 4 "?" ∷ log_row 6 "{}" ∷ [])
      (placed_transcript strict (log_row 3 "{}" ∷ log_row 4 "?" ∷ log_row 6 "{}" ∷ []))
placed_transcript-Replays_example =
    placed_transcript-Replays strict (log_row 3 "{}" ∷ log_row 4 "?" ∷ log_row 6 "{}" ∷ []) (
      Origin.written (event finished) (finished_row 3),
      (
        Origin.foreign (garbled "no JSON" refl),
        (Origin.written (event finished) (finished_row 6), tt),
      ),
    )
