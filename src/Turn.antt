-- ===== src/Turn.antt =====
-- pkgs/host/protocol/src/turn.rs: the vocabulary of a turn.
use jan_klod.Common.{String, Bool, List, Option}

pub data Role : Type 0 where
  system user assistant tool : Role

pub record Message : Type 0 where
  pub role : Role
  pub content : String
  pub tool_call_id : Option String

pub record ToolCall : Type 0 where
  pub id : String
  pub name : String
  pub arguments : String

pub record ToolOutcome : Type 0 where
  pub tool_call_id : String
  pub content : String
  pub failed : Bool

pub record UserPrompt : Type 0 where
  pub question : String
  pub options : List String
  pub default_answer : String

pub data Event : Type 0 where
  text_delta : String → Event
  tool_invoked : ToolCall → Event
  tool_result : ToolOutcome → Event
  warning : String → Event
  done : String → Bool → Event

pub data Flow : Type 0 where
  continue stop : Flow

-- The traits `Driver` and `EventSink`: what is attached to a turn is not part of the core, so each
-- is a record of functions on a state `W` that all attached parts share.
pub record Driver (W : Type 0) : Type 0 where
  pub ask : UserPrompt → W → String × W
  pub follow_up : W → Option String × W

pub record EventSink (W : Type 0) : Type 0 where
  pub emit : Event → W → Flow × W
