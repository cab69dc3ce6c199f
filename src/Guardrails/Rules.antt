-- ===== src/Guardrails/Rules.antt =====
-- pkgs/extensions/interceptor-guardrails/src/rules.rs: the rules, read from the configuration, and the
-- review of a call and of a text.
use jan_klod.Common.{
  String, Bool, true, false, ◌&&◌, List, [], ◌∷◌, Option, none, some, find, str_eq, format, Result,
  ok, err, ok_or, ◌>>=◌, if◌then◌else◌,
}
use mathlib.Core.Option
use jan_klod.Json.{Value, array_field, str_field}
use jan_klod.Permission.Rules.{or_else}

pub data Act : Type 0 where
  block ask : Act

pub data RuleError : Type 0 where
  pattern : String → RuleError
  missing_pattern : RuleError
  decision : String → RuleError
  text_decision : String → RuleError

unfoldable pub parse_act : Option String → Result Act RuleError
parse_act none = ok Act.block
parse_act (some raw) =
    if str_eq raw "block"
    then ok Act.block
    else if str_eq raw "ask"
    then ok Act.ask
    else err (RuleError.decision raw)

pub record Verdict : Type 0 where
  pub reason : String
  pub act : Act

pub data TextAct : Type 0 where
  replace block : TextAct

unfoldable pub parse_text_act : Option String → Result TextAct RuleError
parse_text_act none = ok TextAct.replace
parse_text_act (some raw) =
    if str_eq raw "replace"
    then ok TextAct.replace
    else if str_eq raw "block"
    then ok TextAct.block
    else err (RuleError.text_decision raw)

abbrev pub default_replacement : String
default_replacement = "[redacted]"

pub data TextVerdict : Type 0 where
  redacted : String → TextVerdict
  blocked : String → TextVerdict

abbrev pub is_block : TextAct → Bool
is_block TextAct.replace = false
is_block TextAct.block = true

-- `Regex` of the `regex` crate: `new` (nothing for a pattern that does not compile), `is_match` and
-- `replace_all`.
pub record Engine (R : Type 0) : Type 0 where
  pub new : String → Option R
  pub is_match : R → String → Bool
  pub replace_all : R → String → String → String

module _ (R : Type 0) where
  pub record DenyRule : Type 0 where
    pub pattern : R
    pub tool : Option String
    pub reason : String
    pub act : Act

  pub record TextRule : Type 0 where
    pub pattern : R
    pub with_text : String
    pub reason : String
    pub act : TextAct

  pub record Rules : Type 0 where
    pub deny_tool_arguments : List (DenyRule)
    pub redact : List (TextRule)

abbrev pub default_rules : {R : Type 0} → Rules R
default_rules = record { deny_tool_arguments = []; redact = [] }

abbrev pub reason_of : Value → String → String
reason_of rule raw =
    or_else (str_field rule "reason") (format ("matches the guardrail `" ∷ raw ∷ "`" ∷ []))

-- A `for` over the rules of a section that ends with the first error.
unfoldable pub collect : {A B E : Type 0} → (A → Result B E) → List A → Result (List B) E
collect f [] = ok []
collect f (x ∷ xs) = do y ← f x; ys ← collect f xs; ok (y ∷ ys)

abbrev pub names_tool : Option String → String → Bool
names_tool none tool = true
names_tool (some named) tool = str_eq named tool

module _ {R : Type 0} (engine : Engine R) where
  unfoldable pub compile : Value → Result (String × R) RuleError
  compile rule = do
    raw ← ok_or (str_field rule "pattern") RuleError.missing_pattern
    compiled ← ok_or (engine.new raw) (RuleError.pattern raw)
    ok (raw, compiled)

  unfoldable pub tool_rule : Value → Result (DenyRule R) RuleError
  tool_rule rule = do
    (raw, compiled) ← compile rule
    act ← parse_act (str_field rule "decision")
    ok (record {
      pattern = compiled;
      tool = str_field rule "tool";
      reason = reason_of rule raw;
      act = act;
    })

  unfoldable pub text_rule : Value → Result (TextRule R) RuleError
  text_rule rule = do
    (raw, compiled) ← compile rule
    act ← parse_text_act (str_field rule "decision")
    ok (record {
      pattern = compiled;
      with_text = or_else (str_field rule "with") default_replacement;
      reason = reason_of rule raw;
      act = act;
    })

  unfoldable pub from_config : Value → Result (Rules R) RuleError
  from_config section = do
    deny ← collect tool_rule (array_field section "deny-tool-arguments")
    texts ← collect text_rule (array_field section "redact")
    ok (record { deny_tool_arguments = deny; redact = texts })

  unfoldable pub fires : String → String → DenyRule R → Bool
  fires tool arguments rule = names_tool rule.tool tool && engine.is_match rule.pattern arguments

  unfoldable pub review_tool_call : Rules R → String → String → Option Verdict
  review_tool_call rules tool arguments =
      Option.map (λ rule. record { reason = rule.reason; act = rule.act })
        (find (fires tool arguments) rules.deny_tool_arguments)

  unfoldable pub refuses : String → TextRule R → Bool
  refuses text rule = is_block rule.act && engine.is_match rule.pattern text

  -- The text so far: `Cow::Borrowed` is nothing, `Cow::Owned` the rewritten text.
  abbrev pub redact_one : TextRule R → String → Option String → Option String
  redact_one rule text owned =
      if is_block rule.act
      then owned
      else if engine.is_match rule.pattern (or_else owned text)
      then some (engine.replace_all rule.pattern (or_else owned text) rule.with_text)
      else owned

  unfoldable pub redact_all : List (TextRule R) → String → Option String → Option String
  redact_all [] text owned = owned
  redact_all (rule ∷ rules) text owned = redact_all rules text (redact_one rule text owned)

  abbrev pub text_verdict : Option (TextRule R) → Option String → Option TextVerdict
  text_verdict (some refusal) owned = some (blocked refusal.reason)
  text_verdict none owned = Option.map redacted owned

  unfoldable pub review_text : Rules R → String → Option TextVerdict
  review_text rules text =
      text_verdict (find (refuses text) rules.redact) (redact_all rules.redact text none)
