-- ===== src/Conductor/Fallback.antt =====
-- pkgs/host/agent/src/conductor.rs: the fallback chain and the retries of malformed output.
use jan_klod.Common.{
  ℕ, zero, suc, ◌≡◌, ◌≢◌, refl, sym, ap, subst, String, List, [], ◌∷◌, ◌++◌, Result, ok, err, inl,
  inr, All, format, join, append_assoc, append-nil, Result-cases,
}
use jan_klod.Json.{Codec, Value}
use jan_klod.Turn.{ToolCall, warning}
use jan_klod.Intercept.Types.{PendingRequest, Completion, Completer}
use jan_klod.Conductor.Effects.{Parts, max_retries}
use jan_klod.Conductor.Provider.{
  failure_note, validate, fallback_loop, fallback_from, complete_with_fallback, checked,
  check_completion, attempt, Attempt, failed, accepted, malformed, last_attempt, or_retry,
  retry_loop, complete_validated,
}

module _ {W : Type 0} (p : Parts W) (request : PendingRequest) where
  -- Each provider of a list was asked, in order, with the request itself; each failed, and the
  -- client was warned of it. `notes` names each with its reason.
  pub data FailedInTurn (w' : W) : List (Completer W) → W → List String → Type 0 where
    none_left : {w : W} → w' ≡ w → FailedInTurn w' [] w []
    next_failed :
        {c : Completer W} {cs : List (Completer W)} {w : W} {notes : List String} (reason : String)
        → (c.complete request w).0 ≡ err reason
        → FailedInTurn w' cs
            (p.sink.emit
              (warning (format ("provider " ∷ failure_note c.id reason ∷ "; falling back" ∷ [])))
              (c.complete request w).1).1
            notes
        → FailedInTurn w' (c ∷ cs) w (failure_note c.id reason ∷ notes)

  -- The first provider that answers, those before it having failed in turn.
  pub record AnsweredBy (cs : List (Completer W)) (w : W) (completion : Completion) (w' : W)
      : Type 0 where
    pub before : List (Completer W)
    pub provider : Completer W
    pub after : List (Completer W)
    pub state : W
    pub notes : List String
    pub split : cs ≡ before ++ provider ∷ after
    pub failures : FailedInTurn state before w notes
    pub answer : provider.complete request state ≡ (ok completion, w')

  -- What a fallback chain comes to.
  abbrev pub FallsBack :
      List (Completer W) → List String → W → Result Completion String → W → Type 0
  FallsBack cs failures w (ok completion) w' = AnsweredBy cs w completion w'
  FallsBack cs failures w (err message) w' =
      (notes : List String) × FailedInTurn w' cs w notes
      × (message ≡ format ("all providers failed (" ∷ join "; " (failures ++ notes) ∷ ")" ∷ []))

  FallsBack-cons :
      (c : Completer W) (cs : List (Completer W)) (failures : List String) (w : W) (reason : String)
      (r : Result Completion String) (w' : W)
      → (c.complete request w).0 ≡ err reason
      → FallsBack cs
          (failures ++ failure_note c.id reason ∷ [])
          (p.sink.emit
            (warning (format ("provider " ∷ failure_note c.id reason ∷ "; falling back" ∷ [])))
            (c.complete request w).1).1
          r
          w'
      → FallsBack (c ∷ cs) failures w r w'
  FallsBack-cons c cs failures w reason (ok completion) w' e h = record {
    before = c ∷ h.before;
    provider = h.provider;
    after = h.after;
    state = h.state;
    notes = failure_note c.id reason ∷ h.notes;
    split = ap (λ (xs : List (Completer W)). c ∷ xs) h.split;
    failures = next_failed reason e h.failures;
    answer = h.answer;
  }
  FallsBack-cons c cs failures w reason (err message) w' e (notes, f, m) = (
    failure_note c.id reason ∷ notes,
    next_failed reason e f,
    rw (sym (append_assoc failures (failure_note c.id reason ∷ []) notes)) m,
  )

  answered_first :
      (c : Completer W) (cs : List (Completer W)) (w : W) (completion : Completion)
      → (c.complete request w).0 ≡ ok completion
      → AnsweredBy (c ∷ cs) w completion (c.complete request w).1
  answered_first c cs w completion e = record {
    before = [];
    provider = c;
    after = cs;
    state = w;
    notes = [];
    split = refl;
    failures = none_left refl;
    answer = λ i. (e i, (c.complete request w).1);
  }

  fallback_loop-FallsBack :
      (cs : List (Completer W)) (failures : List String) (w : W)
      → FallsBack cs failures w
          (fallback_loop p request cs failures w).0
          (fallback_loop p request cs failures w).1
  unfolding fallback_loop
  fallback_loop-FallsBack [] failures w = ([], none_left refl, rw append-nil)
  fallback_loop-FallsBack (c ∷ cs) failures w = elim (Result-cases (c.complete request w).0) [
    | inl (completion, e) ↦ rw (e, fallback_loop) (answered_first c cs w completion e)
    | inr (reason, e) ↦
        rw (e, fallback_loop)
          (FallsBack-cons c cs failures w reason _ _ e (fallback_loop-FallsBack cs _ _))
  ]

  fallback_from-FallsBack :
      (cs : List (Completer W)) (w : W)
      → cs ≢ []
      → FallsBack cs [] w (fallback_from p cs request w).0 (fallback_from p cs request w).1
  unfolding fallback_from
  fallback_from-FallsBack [] w h = absurd (h refl)
  fallback_from-FallsBack (c ∷ cs) w h = fallback_loop-FallsBack (c ∷ cs) [] w

  -- With at least one provider, `complete_with_fallback` asks them in order with the same request
  -- until one answers. Its answer is that provider's, all before it having failed with a warning
  -- each; its error names every provider with its own reason, in order.
  pub complete_with_fallback-FallsBack :
      (w : W)
      → p.providers ≢ []
      → FallsBack p.providers [] w
          (complete_with_fallback p request w).0
          (complete_with_fallback p request w).1
  unfolding complete_with_fallback
  complete_with_fallback-FallsBack w h = fallback_from-FallsBack p.providers w h

-- Every tool call's arguments read as JSON.
abbrev pub HasJson : Codec → List ToolCall → Type 0
HasJson codec calls =
    All (λ (call : ToolCall). (v : Value) × (codec.from_str call.arguments ≡ ok v)) calls

validate-HasJson :
    (codec : Codec) (calls : List ToolCall) → validate codec calls ≡ ok tt → HasJson codec calls
unfolding validate
validate-HasJson codec [] h = tt
validate-HasJson codec (call ∷ calls) h = elim (Result-cases (codec.from_str call.arguments)) [
  | inl (v, e) ↦ ((v, e), validate-HasJson codec calls (rw (e, validate) at h))
  | inr (x, e) ↦ cc (rw (e, validate) at h)
]

module _ {W : Type 0} (p : Parts W) where
  abbrev AcceptedJson : Attempt → Type 0
  AcceptedJson (accepted completion) = HasJson p.codec completion.tool_calls
  AcceptedJson (failed reason) = Unit
  AcceptedJson (malformed completion reason) = Unit

  abbrev OkJson : Result Completion String → Type 0
  OkJson (ok completion) = HasJson p.codec completion.tool_calls
  OkJson (err reason) = Unit

  checked-AcceptedJson :
      (c : Completion) (r : Result (Unit {0}) String)
      → validate p.codec c.tool_calls ≡ r
      → AcceptedJson (checked p c r)
  checked-AcceptedJson c (ok u) e = validate-HasJson p.codec c.tool_calls e
  checked-AcceptedJson c (err reason) e = tt

  check_completion-AcceptedJson :
      (r : Result Completion String × W) → AcceptedJson (check_completion p r).0
  unfolding check_completion
  check_completion-AcceptedJson (ok c, w) = checked-AcceptedJson c _ refl
  check_completion-AcceptedJson (err reason, w) = tt

  last_attempt-OkJson : (r : Attempt × W) → AcceptedJson r.0 → OkJson (last_attempt p r).0
  last_attempt-OkJson (failed reason, w) h = tt
  last_attempt-OkJson (accepted c, w) h = h
  last_attempt-OkJson (malformed c reason, w) h = tt

  or_retry-OkJson :
      (next : PendingRequest → W → Result Completion String × W) (request : PendingRequest)
      (r : Attempt × W)
      → ((request1 : PendingRequest) (w : W) → OkJson (next request1 w).0)
      → AcceptedJson r.0
      → OkJson (or_retry p next request r).0
  or_retry-OkJson next request (failed reason, w) k h = tt
  or_retry-OkJson next request (accepted c, w) k h = h
  or_retry-OkJson next request (malformed c reason, w) k h = k _ _

  retry_loop-OkJson :
      (left : ℕ) (request : PendingRequest) (w : W) → OkJson (retry_loop p left request w).0
  unfolding retry_loop attempt
  retry_loop-OkJson zero request w = last_attempt-OkJson _ (check_completion-AcceptedJson _)
  retry_loop-OkJson (suc left) request w =
      or_retry-OkJson (retry_loop p left) request _ (retry_loop-OkJson left)
        (check_completion-AcceptedJson _)

  -- A completion that reaches the loop has only tool calls whose arguments are JSON, whatever the
  -- providers send.
  pub complete_validated-HasJson :
      (request : PendingRequest) (w w' : W) (completion : Completion)
      → complete_validated p request w ≡ (ok completion, w')
      → HasJson p.codec completion.tool_calls
  unfolding complete_validated
  complete_validated-HasJson request w w' completion e =
      subst OkJson (ap (λ (r : Result Completion String × W). r.0) e)
        (retry_loop-OkJson max_retries request w)
