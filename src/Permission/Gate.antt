-- ===== src/Permission/Gate.antt =====
-- pkgs/extensions/interceptor-permission/src/lib.rs: the interceptor. What it logs is left out.
pub mod Decides
pub mod Kinds
pub mod Remembers
pub mod Tests
use jan_klod.Common.{
  ℕ, ◌+◌, ◌*◌, ◌-◌, min, String, Bool, true, false, ◌&&◌, List, [], ◌∷◌, ◌++◌, Option, none, some,
  format, decimal, leb, ◌==◌, Result, ok, err, if◌then◌else◌,
}
use Prim.Native.Char.{Char, code}
use Prim.Native.String
use jan_klod.Json.{Codec, ◌>>=◌}
use jan_klod.Turn.{ToolCall, UserPrompt}
use jan_klod.Intercept.Types.{
  Phase, HookState, Decision, InterceptorError, BlockReason, InterceptInput, Interceptor,
}
use jan_klod.Permission.Rules.{
  Policy, Concern, or_else, some_if, describe, is_rememberable, scope_key, review,
}
use jan_klod.Permission.Wording.{
  Answer, Standing, allow, deny, approves, standing, as_text, parse_standing, parse_answer,
  summarise, denial_message, refusals_before_standing_deny,
}

abbrev pub u32_max : ℕ
u32_max = 4294967295

-- `host_storage` in the namespace of this interceptor: an entry's value, or nothing if there is none or
-- the read fails; a write that fails may leave the state as it is.
pub record Storage (W : Type 0) : Type 0 where
  pub get : String → W → Option String
  pub set : String → String → W → W

-- `str::parse::<u32>`, of the digits after those that make `n`.
unfoldable pub parse_digits : ℕ → String → Option ℕ
parse_digits n String.[] = if leb n u32_max then some n else none
parse_digits n (String.◌∷◌ c s) =
    let rest = parse_digits (n * 10 + (code c - 48)) s in
    if leb 48 (code c) && leb (code c) 57 then rest else none

abbrev pub parse_unsigned : String → Option ℕ
parse_unsigned String.[] = none
parse_unsigned (String.◌∷◌ c s) = parse_digits 0 (String.◌∷◌ c s)

unfoldable pub parse_u32 : String → Option ℕ
parse_u32 String.[] = none
parse_u32 (String.◌∷◌ c s) =
    if code c == 43 then parse_unsigned s else parse_digits 0 (String.◌∷◌ c s)

unfoldable pub counter_key : String → String
counter_key key = format ("refusals:" ∷ key ∷ [])

-- What the user is asked; a decision that may stand is offered with its scope only.
unfoldable pub question_for : String → String → String → Option String → UserPrompt
question_for tool what reason (some key) = record {
  question = format (
      "Allow `" ∷ tool ∷ "` to " ∷ what ∷ "? (" ∷ reason ∷ ". `always`/`never` apply to `" ∷ key
      ∷ "` for the rest of this run.)" ∷ []);
  options = "yes" ∷ "no" ∷ "always" ∷ "never" ∷ [];
  default_answer = "no";
}
question_for tool what reason none = record {
  question = format ("Allow `" ∷ tool ∷ "` to " ∷ what ∷ "? (" ∷ reason ∷ ")" ∷ []);
  options = "yes" ∷ "no" ∷ [];
  default_answer = "no";
}

module _ {W : Type 0} (storage : Storage W) where
  -- The number of refusals of `key`, this one included.
  unfoldable pub refusals : String → W → ℕ
  refusals key w = min (or_else (storage.get (counter_key key) w >>= parse_u32) 0 + 1) u32_max

  unfoldable pub count_refusal : String → W → ℕ × W
  count_refusal key w = (refusals key w, storage.set (counter_key key) (decimal (refusals key w)) w)

  unfoldable pub recall : String → W → Option Standing
  recall key w = storage.get key w >>= parse_standing

  unfoldable pub remember : String → Standing → W → W
  remember key verdict w = storage.set key (as_text verdict) w

  abbrev pub recall_scope : Option String → W → Option Standing
  recall_scope none w = none
  recall_scope (some key) w = recall key w

  abbrev pub remember_answer : Option String → Option Standing → W → W
  remember_answer none verdict w = w
  remember_answer (some key) none w = w
  remember_answer (some key) (some verdict) w = remember key verdict w

  -- Whether a refusal makes the kind of call stand refused.
  unfoldable pub refuse : Option String → W → Bool × W
  refuse none w = (false, w)
  refuse (some key) w =
      let (count, w1) = count_refusal key w in
      if leb refusals_before_standing_deny count then (true, remember key deny w1) else (false, w1)

module _ {W : Type 0} (codec : Codec) (lower : String → String) (storage : Storage W) where
  abbrev pub block_call : ToolCall → Bool → Decision
  block_call call stands =
      Decision.block (record {
        message = denial_message (summarise codec lower call.name call.arguments) stands;
      })

  abbrev pub scope_of : ToolCall → Concern → Option String
  scope_of call concern =
      some_if (is_rememberable concern) (scope_key codec lower call.name call.arguments)

  abbrev pub prompt_for : ToolCall → Concern → UserPrompt
  prompt_for call concern =
      question_for call.name (summarise codec lower call.name call.arguments)
        (describe concern call.name) (scope_of call concern)

  -- The arm without an answer: a decision that stands, or a question.
  unfoldable pub decide_unanswered : ToolCall → Concern → Option Standing → Decision
  decide_unanswered call concern (some allow) = Decision.proceed
  decide_unanswered call concern (some deny) = block_call call true
  decide_unanswered call concern none = Decision.ask (prompt_for call concern)

  abbrev pub finish_answer : ToolCall → Option String → Bool → W → Decision × W
  finish_answer call scope true w = (Decision.proceed, w)
  finish_answer call scope false w =
      let (stands, w1) = refuse storage scope w in (block_call call stands, w1)

  -- The arm with an answer.
  unfoldable pub decide_answered : ToolCall → Concern → Answer → W → Decision × W
  decide_answered call concern answer w =
      finish_answer call (scope_of call concern) (approves answer)
        (remember_answer storage (scope_of call concern) (standing answer) w)

  unfoldable pub gate : ToolCall → Option String → Option Concern → W → Decision × W
  gate call answer none w = (Decision.proceed, w)
  gate call none (some concern) w =
      (decide_unanswered call concern (recall_scope storage (scope_of call concern) w), w)
  gate call (some reply) (some concern) w =
      decide_answered call concern (parse_answer lower reply) w

  abbrev pub decided : Decision × W → Result Decision InterceptorError × W
  decided (decision, w) = (ok decision, w)

  unfoldable pub intercept_state :
      Policy → Option String → HookState → W → Result Decision InterceptorError × W
  intercept_state policy answer (HookState.tool_call call) w =
      decided (gate call answer (review codec lower policy call.name call.arguments) w)
  intercept_state policy answer state w = (err InterceptorError.invalid_state, w)

  unfoldable pub permission_interceptor : Policy → Interceptor W
  permission_interceptor policy = record {
    id = "interceptor-permission";
    subscribed_phases = Phase.tool_call ∷ [];
    intercept = λ input w. intercept_state policy input.answer input.state w;
  }
