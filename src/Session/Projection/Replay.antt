-- ===== src/Session/Projection/Replay.antt =====
-- pkgs/host/session/src/projection.rs: what a log says was said.
use jan_klod.Common.{
  ℕ, ◌<◌, ◌≡◌, ◌⊎◌, inl, inr, refl, ap, ◌∙◌, String, Bool, List, [], ◌∷◌, Option, none, some,
  filter_map, All, Result, ok, err, subst,
}
use jan_klod.Json.{Codec, Value, number, unsigned, get, ◌>>=◌}
use jan_klod.Turn.{
  Message, ToolCall, ToolOutcome, user, assistant, tool, text_delta, tool_invoked, tool_result,
  warning, done,
}
use jan_klod.Session.EventLog.{
  DecodeError, Record, user_message, ask, answer, follow_up, extension_loaded, event, envelope,
  envelope_value, event_log_version, decode_record, open_envelope,
}
use jan_klod.Session.EventLog.RoundTrip.{
  ReadsBack, row_kind, row_data, decode_record-row, decode_record-newer,
}
use jan_klod.Session.Store.{LoggedEvent}
use jan_klod.Session.Projection.{message_for, event_message, readable, place, placed_transcript}

-- What a record says: the user's words, the model's answer, and what a tool answered to a call.
pub data Says : Record → Message → Type 0 where
  user_said :
      (text : String)
      → Says (user_message text) (record { role = user; content = text; tool_call_id = none })
  user_went_on :
      (text : String)
      → Says (follow_up text) (record { role = user; content = text; tool_call_id = none })
  model_said :
      (text : String) (agentic : Bool)
      → Says
          (event (done text agentic))
          (record { role = assistant; content = text; tool_call_id = none })
  tool_said :
      (outcome : ToolOutcome)
      → Says (event (tool_result outcome)) (record {
        role = tool;
        content = outcome.content;
        tool_call_id = some outcome.tool_call_id;
      })

-- What the model did not see as a message.
pub data IsSilent : Record → Type 0 where
  asked : (q : String) (o : List String) (d : String) → IsSilent (ask q o d)
  answered : (text : String) → IsSilent (answer text)
  loaded : (s : String) (l : Bool) (d : String) → IsSilent (extension_loaded s l d)
  streamed : (text : String) → IsSilent (event (text_delta text))
  invoked : (call : ToolCall) → IsSilent (event (tool_invoked call))
  warned : (text : String) → IsSilent (event (warning text))

module _ (codec : Codec) where
  -- A row was written from a record, and the JSON library reads back what it printed.
  pub record IsWrittenFrom (row : LoggedEvent) (r : Record) : Type 0 where
    pub of_kind : row.kind ≡ row_kind r
    pub of_data : row.payload ≡ envelope codec (row_data r)
    pub reads_back : ReadsBack codec (envelope_value (row_data r))

  -- A row that is no JSON, or that a newer build wrote.
  pub data IsUnreadable (row : LoggedEvent) : Type 0 where
    garbled : (e : String) → codec.from_str row.payload ≡ err e → IsUnreadable row
    newer :
        (v : Value) (n : ℕ)
        → codec.from_str row.payload ≡ ok v
        → get v "v" ≡ some (number (unsigned n))
        → event_log_version < n
        → IsUnreadable row

  pub data Origin (row : LoggedEvent) : Type 0 where
    written : (r : Record) → IsWrittenFrom row r → Origin row
    foreign : IsUnreadable row → Origin row

  -- The messages of a log, each with the `seq` of its row, in the order of the rows.
  pub data Replays : List LoggedEvent → List (ℕ × Message) → Type 0 where
    at_end : Replays [] []
    speaks :
        (row : LoggedEvent) (r : Record) (m : Message) (rows : List LoggedEvent)
        (ms : List (ℕ × Message))
        → IsWrittenFrom row r
        → Says r m
        → Replays rows ms
        → Replays (row ∷ rows) ((row.seq, m) ∷ ms)
    is_silent :
        (row : LoggedEvent) (r : Record) (rows : List LoggedEvent) (ms : List (ℕ × Message))
        → IsWrittenFrom row r
        → IsSilent r
        → Replays rows ms
        → Replays (row ∷ rows) ms
    skips :
        (row : LoggedEvent) (rows : List LoggedEvent) (ms : List (ℕ × Message))
        → IsUnreadable row
        → Replays rows ms
        → Replays (row ∷ rows) ms

  -- A record says what its message is, or nothing.
  Says-message_for :
      (r : Record)
      → ((m : Message) × (message_for r ≡ some m) × Says r m)
        ⊎ ((message_for r ≡ none) × IsSilent r)
  unfolding message_for event_message
  Says-message_for (user_message t) = inl (_, refl, user_said t)
  Says-message_for (follow_up t) = inl (_, refl, user_went_on t)
  Says-message_for (ask q o d) = inr (refl, asked q o d)
  Says-message_for (answer t) = inr (refl, answered t)
  Says-message_for (extension_loaded s l d) = inr (refl, loaded s l d)
  Says-message_for (event (text_delta t)) = inr (refl, streamed t)
  Says-message_for (event (tool_invoked call)) = inr (refl, invoked call)
  Says-message_for (event (tool_result outcome)) = inl (_, refl, tool_said outcome)
  Says-message_for (event (warning t)) = inr (refl, warned t)
  Says-message_for (event (done t agentic)) = inl (_, refl, model_said t agentic)

  abbrev placed : LoggedEvent → Result Record DecodeError → Option (ℕ × Message)
  placed row found = do r ← readable found; message ← message_for r; some (row.seq, message)

  place-IsWrittenFrom :
      (row : LoggedEvent) (r : Record)
      → IsWrittenFrom row r
      → place codec row ≡ (do message ← message_for r; some (row.seq, message))
  unfolding place
  place-IsWrittenFrom row r h =
      ap (λ k. placed row (decode_record codec k row.payload)) h.of_kind
      ∙ ap (λ t. placed row (decode_record codec (row_kind r) t)) h.of_data
      ∙ ap (placed row) (decode_record-row codec r h.reads_back)

  place-IsUnreadable : (row : LoggedEvent) → IsUnreadable row → place codec row ≡ none
  unfolding place
  place-IsUnreadable row (newer v n read version above) =
      ap (placed row) (decode_record-newer codec row.kind row.payload v n read version above)
  place-IsUnreadable row (garbled e read) = unfold decode_record open_envelope in rw read refl

  filter_map-place-some :
      (row : LoggedEvent) (rows : List LoggedEvent) (m : ℕ × Message)
      → place codec row ≡ some m
      → m ∷ placed_transcript codec rows ≡ placed_transcript codec (row ∷ rows)
  unfolding placed_transcript
  filter_map-place-some row rows m e = rw (filter_map, e) refl

  filter_map-place-none :
      (row : LoggedEvent) (rows : List LoggedEvent)
      → place codec row ≡ none
      → placed_transcript codec rows ≡ placed_transcript codec (row ∷ rows)
  unfolding placed_transcript
  filter_map-place-none row rows e = rw (filter_map, e) refl

  -- The transcript of a log whose rows were written from records, are no JSON, or come from a newer
  -- build: the user's messages and follow-ups, the model's answers and the tools' results, each with
  -- the `seq` of its row, in their order; every other row, and every row that cannot be read, is
  -- passed over.
  pub placed_transcript-Replays :
      (rows : List LoggedEvent) → All Origin rows → Replays rows (placed_transcript codec rows)
  placed_transcript-Replays [] h = unfold placed_transcript in at_end
  placed_transcript-Replays (row ∷ rows) (foreign u, h) =
      subst (Replays (row ∷ rows)) (filter_map-place-none row rows (place-IsUnreadable row u))
        (skips row rows _ u (placed_transcript-Replays rows h))
  placed_transcript-Replays (row ∷ rows) (written r k, h) =
      let rest = placed_transcript-Replays rows h in
      elim (Says-message_for r) [
        | inl (m, e, said) ↦
            subst (Replays (row ∷ rows))
              (filter_map-place-some row rows (row.seq, m)
                (place-IsWrittenFrom row r k ∙ ap (λ o. o >>= λ x. some (row.seq, x)) e))
              (speaks row r m rows _ k said rest)
        | inr (e, silent) ↦
            subst (Replays (row ∷ rows))
              (filter_map-place-none row rows
                (place-IsWrittenFrom row r k ∙ ap (λ o. o >>= λ x. some (row.seq, x)) e))
              (is_silent row r rows _ k silent rest)
      ]
