-- ===== src/Conductor/Answers.antt =====
-- pkgs/host/agent/src/conductor.rs: what a pass over the tool calls leaves in the request.
use jan_klod.Common.{◌≡◌, refl, sym, ◌∙◌, ap, List, [], ◌∷◌, ◌++◌, some, append_assoc, append-nil}
use jan_klod.Turn.{ToolCall, Message, tool}
use jan_klod.Intercept.Types.{PendingRequest}
use jan_klod.Conductor.Effects.{Parts}
use jan_klod.Conductor.Rules.{Ensures, back, Ensures-some, Ensures-any, Ensures-map, >>=-Ensures}
use jan_klod.Conductor.Provider.{push_message}
use jan_klod.Conductor.Tools.{ToolPass, run_tool_call, run_tool_calls}

-- One message for each call, in the order of the calls, under the call's own id.
abbrev pub Answers : List ToolCall → List Message → Type 0
Answers [] [] = Unit
Answers (c ∷ cs) (m ∷ ms) = (m.role ≡ tool) × (m.tool_call_id ≡ some c.id) × Answers cs ms
Answers [] (m ∷ ms) = ⊥
Answers (c ∷ cs) [] = ⊥

module _ {W : Type 0} (p : Parts W) where
  abbrev Answered : ToolCall → PendingRequest → PendingRequest → Type 0
  Answered call request request' =
      (m : Message) × (m.role ≡ tool)
      × (m.tool_call_id ≡ some call.id)
      × (request' ≡ push_message request m)

  run_tool_call_answers :
      (call : ToolCall) (stop : ToolPass) (request : PendingRequest) (w : W)
      → Ensures (λ r _. Answered call request r.1) (run_tool_call p call stop request w)
  unfolding run_tool_call
  run_tool_call_answers call stop request w = >>=-Ensures _ _ w (Ensures-any _) λ gate w1 _.
      >>=-Ensures _ _ w1 (Ensures-any _) λ invoked w2 _.
        >>=-Ensures _ _ w2 (Ensures-any _)
          λ after w3 _. >>=-Ensures _ _ w3 (Ensures-any _) λ flow w4 _. back (_, refl, refl, refl)

  abbrev AllAnswered : List ToolCall → PendingRequest → PendingRequest → Type 0
  AllAnswered calls request request' =
      (ms : List Message) × Answers calls ms
      × (request' ≡ record request { messages = request.messages ++ ms })

  AllAnswered-cons :
      (call : ToolCall) (calls : List ToolCall) (r r1 r2 : PendingRequest)
      → Answered call r r1
      → AllAnswered calls r1 r2
      → AllAnswered (call ∷ calls) r r2
  AllAnswered-cons call calls r r1 r2 (m, role, id, e) (ms, answers, e1) = (
    m ∷ ms,
    (role, id, answers),
    e1
        ∙ ap (λ (x : PendingRequest). record x { messages = x.messages ++ ms }) e
        ∙ ap (λ (xs : List Message). record r { messages = xs })
            (append_assoc r.messages (m ∷ []) ms),
  )

  run_tool_calls_answers :
      (calls : List ToolCall) (stop : ToolPass) (request : PendingRequest) (w : W)
      → Ensures (λ r _. AllAnswered calls request r.1) (run_tool_calls p calls stop request w)
  unfolding run_tool_calls
  run_tool_calls_answers [] stop request w =
      back
        ([], tt, ap (λ (xs : List Message). record request { messages = xs }) (sym (append-nil _)))
  run_tool_calls_answers (call ∷ calls) stop request w =
      >>=-Ensures _ _ w (run_tool_call_answers call stop request w) λ r w1 answered.
        Ensures-map (λ r2 w2. AllAnswered-cons call calls request r.1 r2.1 answered)
          (run_tool_calls_answers calls r.0 r.1 w1)

  -- A pass over the tool calls of an answer appends to the request one tool message for each call,
  -- in the order of the calls and under the call's own id, whether the call ran, was denied or
  -- matched no tool; it changes nothing else of the request.
  pub run_tool_calls-Answers :
      (calls : List ToolCall) (stop stop' : ToolPass) (request request' : PendingRequest) (w w' : W)
      → run_tool_calls p calls stop request w ≡ some ((stop', request'), w')
      → (ms : List Message) × Answers calls ms
        × (request' ≡ record request { messages = request.messages ++ ms })
  run_tool_calls-Answers calls stop stop' request request' w w' h =
      Ensures-some _ h (run_tool_calls_answers calls stop request w)
