-- ===== src/Conductor/Provider.antt =====
-- pkgs/host/agent/src/conductor.rs: the fallback chain, validation and the retry loop.
use jan_klod.Common.{
  ℕ, zero, suc, String, List, [], ◌∷◌, ◌++◌, none, Result, ok, err, format, join, decimal,
  if◌then◌else◌,
}
use jan_klod.Json.{Codec}
use jan_klod.Turn.{ToolCall, Message, assistant, user, warning}
use jan_klod.Intercept.Types.{PendingRequest, Completion, Completer, was_truncated}
use jan_klod.Conductor.Effects.{State, Parts, max_retries}

abbrev pub failure_note : String → String → String
failure_note id e = format (id ∷ ": " ∷ e ∷ [])

-- `validate`: every tool call's arguments are JSON; the first that is not is reported.
unfoldable pub validate : Codec → List ToolCall → Result (Unit {0}) String
validate codec [] = ok tt
validate codec (call ∷ calls) = elim (codec.from_str call.arguments) [
  | ok value ↦ validate codec calls
  | err e ↦ err (format ("tool `" ∷ call.name ∷ "` arguments are not valid JSON: " ∷ e ∷ []))
]

-- `request.messages.push(..)`.
abbrev pub push_message : PendingRequest → Message → PendingRequest
push_message request m = record request { messages = request.messages ++ m ∷ [] }

-- The answer that was refused, and the correction, as the next attempt sees them.
abbrev pub corrected : PendingRequest → String → String → PendingRequest
corrected request text reason =
    push_message
      (push_message request (record { role = assistant; content = text; tool_call_id = none }))
      (record {
        role = user;
        content =
            format
              ("Your previous response was invalid: " ∷ reason ∷ ". Reply again, correctly." ∷ []);
        tool_call_id = none;
      })

abbrev pub malformed_message : String → String
malformed_message reason =
    format ("malformed output after " ∷ decimal max_retries ∷ " retries: " ∷ reason ∷ [])

-- How one round of the retry loop ends.
pub data Attempt : Type 0 where
  failed : String → Attempt
  accepted : Completion → Attempt
  malformed : Completion → String → Attempt

module _ {W : Type 0} (p : Parts W) where
  -- The `for` loop of `complete_with_fallback`.
  unfoldable pub fallback_loop :
      PendingRequest → List (Completer W) → List String → State W (Result Completion String)
  fallback_loop request [] failures w =
      (err (format ("all providers failed (" ∷ join "; " failures ∷ ")" ∷ [])), w)
  fallback_loop request (c ∷ cs) failures w =
      let (result, w1) = c.complete request w in
      elim result [
        | ok completion ↦ (ok completion, w1)
        | err e ↦
            let note = failure_note c.id e in
            let (flow, w2) =
              p.sink.emit (warning (format ("provider " ∷ note ∷ "; falling back" ∷ []))) w1 in
            fallback_loop request cs (failures ++ note ∷ []) w2
      ]

  unfoldable pub fallback_from :
      List (Completer W) → PendingRequest → State W (Result Completion String)
  fallback_from [] request w = (err "no providers configured", w)
  fallback_from (c ∷ cs) request w = fallback_loop request (c ∷ cs) [] w

  unfoldable pub complete_with_fallback : PendingRequest → State W (Result Completion String)
  complete_with_fallback request w = fallback_from p.providers request w

  unfoldable pub warn_truncated : Completion → W → W
  warn_truncated completion w =
      if was_truncated completion
      then (p.sink.emit (warning "the model stopped at its token limit — this answer is cut off")
          w).1
      else w

  abbrev pub checked : Completion → Result (Unit {0}) String → Attempt
  checked completion (ok _) = accepted completion
  checked completion (err reason) = malformed completion reason

  unfoldable pub check_completion : Result Completion String × W → Attempt × W
  check_completion (err reason, w) = (failed reason, w)
  check_completion (ok completion, w) =
      (checked completion (validate p.codec completion.tool_calls), warn_truncated completion w)

  -- One round of the loop of `complete_validated`.
  unfoldable pub attempt : PendingRequest → State W Attempt
  attempt request w = check_completion (complete_with_fallback request w)

  -- The last round: `attempt == MAX_RETRIES`.
  abbrev pub last_attempt : Attempt × W → Result Completion String × W
  last_attempt (failed reason, w) = (err reason, w)
  last_attempt (accepted completion, w) = (ok completion, w)
  last_attempt (malformed completion reason, w) = (err (malformed_message reason), w)

  abbrev pub or_retry :
      (PendingRequest → State W (Result Completion String))
      → PendingRequest
      → Attempt × W
      → Result Completion String × W
  or_retry next request (failed reason, w) = (err reason, w)
  or_retry next request (accepted completion, w) = (ok completion, w)
  or_retry next request (malformed completion reason, w) =
      let (flow, w1) =
        p.sink.emit (warning (format ("malformed output; retrying: " ∷ reason ∷ []))) w in
      next (corrected request completion.text reason) w1

  -- The `for` loop of `complete_validated`, by the retries that are left.
  unfoldable pub retry_loop : ℕ → PendingRequest → State W (Result Completion String)
  retry_loop zero request w = last_attempt (attempt request w)
  retry_loop (suc left) request w = or_retry (retry_loop left) request (attempt request w)

  unfoldable pub complete_validated : PendingRequest → State W (Result Completion String)
  complete_validated request w = retry_loop max_retries request w
