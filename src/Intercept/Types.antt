-- ===== src/Intercept/Types.antt =====
-- pkgs/host/protocol/src/intercept.rs: phases, the state of a phase, decisions and the traits.
use jan_klod.Common.{ℕ, String, Bool, ◌||◌, List, Option, str_eq, Result}
use jan_klod.Turn.{Message, ToolCall, ToolOutcome, UserPrompt, Driver}

pub data Phase : Type 0 where
  before_loop select_model select_context select_tools after_response tool_call tool_result : Phase
  finalize prepare_next_turn : Phase

-- `PartialEq` of `Phase`.
abbrev pub phase_index : Phase → ℕ
phase_index before_loop = 0
phase_index select_model = 1
phase_index select_context = 2
phase_index select_tools = 3
phase_index after_response = 4
phase_index tool_call = 5
phase_index tool_result = 6
phase_index finalize = 7
phase_index prepare_next_turn = 8

pub record ToolDefinition : Type 0 where
  pub name : String
  pub description : String
  pub parameters_schema : String

-- `temperature`, an `f32`, is held by its bits; no code here computes with it.
pub record PendingRequest : Type 0 where
  pub model : Option String
  pub messages : List Message
  pub tools : List ToolDefinition
  pub grammar : Option String
  pub max_tokens : Option ℕ
  pub temperature : Option ℕ

pub record UserTurn : Type 0 where
  pub session : String
  pub user_message : String
  pub principal : Option String

pub record RawResponse : Type 0 where
  pub text : String
  pub finish_reason : String

pub record FinalAnswer : Type 0 where
  pub text : String

pub data HookState : Type 0 where
  before_loop : UserTurn → HookState
  select_model : PendingRequest → HookState
  select_context : PendingRequest → HookState
  select_tools : PendingRequest → HookState
  after_response : RawResponse → HookState
  tool_call : ToolCall → HookState
  tool_result : ToolOutcome → HookState
  finalize : FinalAnswer → HookState
  prepare_next_turn : PendingRequest → HookState

pub record BlockReason : Type 0 where
  pub message : String

pub data Decision : Type 0 where
  proceed : Decision
  replace : HookState → Decision
  block : BlockReason → Decision
  ask : UserPrompt → Decision

pub data InterceptorError : Type 0 where
  internal invalid_state dependency_failed : InterceptorError

pub record InterceptInput : Type 0 where
  pub phase : Phase
  pub state : HookState
  pub answer : Option String

pub record Completion : Type 0 where
  pub text : String
  pub tool_calls : List ToolCall
  pub finish_reason : String

-- `TRUNCATED.contains(finish_reason)`.
unfoldable pub was_truncated : Completion → Bool
was_truncated c = str_eq "length" c.finish_reason || str_eq "max_tokens" c.finish_reason

pub record ToolInvocation : Type 0 where
  pub content : String
  pub failed : Bool

pub data Outcome : Type 0 where
  proceeded : Outcome
  blocked : BlockReason → Outcome

module _ (W : Type 0) where
  pub record Interceptor : Type 0 where
    pub id : String
    pub subscribed_phases : List Phase
    pub intercept : InterceptInput → W → Result Decision InterceptorError × W

  pub record Completer : Type 0 where
    pub id : String
    pub complete : PendingRequest → W → Result Completion String × W

  -- `invoke_asking` hands the tool the driver, which acts on the shared state too.
  pub record ToolInvoker : Type 0 where
    pub bind_session : String → W → W
    pub invoke_asking : ToolCall → Driver W → W → Option ToolInvocation × W
