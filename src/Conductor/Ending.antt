-- ===== src/Conductor/Ending.antt =====
-- pkgs/host/agent/src/conductor.rs: how a turn ends.
use jan_klod.Common.{ℕ, ◌≡◌, refl, String, Bool, List, Option, some, Result, ok, err}
use jan_klod.Turn.{Message, done}
use jan_klod.Intercept.Types.{PendingRequest}
use jan_klod.Conductor.Effects.{Parts, Limits}
use jan_klod.Conductor.Turns.{RunResult, answered, failed, finish_turn, run_shaped, run_turn}
use jan_klod.Conductor.Rules.{Ensures, back, Ensures-some, Ensures-any, >>=-Ensures}

module _ {W : Type 0} (p : Parts W) where
  -- The client's last news of an answered turn is the answer itself.
  abbrev pub EndsTold : RunResult → W → Type 0
  EndsTold (answered text agentic) w' = (w : W) × (w' ≡ (p.sink.emit (done text agentic) w).1)
  EndsTold (failed reason) w' = Unit

  finish_turn-EndsTold :
      (agentic : Bool) (r : Result String String) (w : W)
      → Ensures EndsTold (finish_turn p agentic r w)
  unfolding finish_turn
  finish_turn-EndsTold agentic (err reason) w = back tt
  finish_turn-EndsTold agentic (ok text) w = >>=-Ensures _ _ w (Ensures-any _) λ final w1 _.
      >>=-Ensures {Q = λ flow w2. w2 ≡ (p.sink.emit (done final agentic) w1).1} _ _ w1 (back refl)
        λ flow w2 e. back (w1, e)

  run_shaped-EndsTold :
      (fuel : ℕ) (limits : Limits) (agentic : Bool) (r : Result PendingRequest String) (w : W)
      → Ensures EndsTold (run_shaped p fuel limits agentic r w)
  unfolding run_shaped
  run_shaped-EndsTold fuel limits agentic (err reason) w = back tt
  run_shaped-EndsTold fuel limits agentic (ok request) w =
      >>=-Ensures _ _ w (Ensures-any _) λ r w1 _. finish_turn-EndsTold agentic r w1

  -- A turn that answers ends by telling the client so: the last effect of the turn is the event
  -- `Done` with the text and the path flag of the result.
  pub run_turn-EndsTold :
      (fuel : ℕ) (limits : Limits) (session message : String) (history : List Message)
      (principal : Option String) (log : String → W → W) (w w' : W) (text : String) (agentic : Bool)
      → run_turn p fuel limits session message history principal log w
        ≡ some (answered text agentic, w')
      → (u : W) × (w' ≡ (p.sink.emit (done text agentic) u).1)
  unfolding run_turn
  run_turn-EndsTold fuel limits session message history principal log w w' text agentic e =
      Ensures-some {Q = EndsTold} _ e (
        >>=-Ensures _ _ w (Ensures-any _) λ u w1 _. >>=-Ensures _ _ w1 (Ensures-any _) λ b w2 _.
          >>=-Ensures _ _ w2 (Ensures-any _) λ r w3 _. run_shaped-EndsTold fuel limits b.0 r w3)
