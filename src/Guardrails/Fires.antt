-- ===== src/Guardrails/Fires.antt =====
-- pkgs/extensions/interceptor-guardrails/src/rules.rs: which rule decides on a call.
use jan_klod.Common.{
  ◌≡◌, ◌↔◌, ◌⊎◌, inl, inr, ap, arith, String, Bool, true, false, ◌&&◌, List, [], ◌∷◌, Option, none,
  some, All, IsFirst, find-cases, eq_iff,
}
use mathlib.Core.Option
use jan_klod.Guardrails.Rules.{
  Verdict, Engine, DenyRule, Rules, names_tool, fires, review_tool_call,
}

abbrev pub verdict_of : {R : Type 0} → DenyRule R → Verdict
verdict_of rule = record { reason = rule.reason; act = rule.act }

module _ {R : Type 0} (engine : Engine R) where
  -- A rule is about a call if it names the call's tool or none, and its pattern is found in the
  -- arguments.
  abbrev pub Applies : String → String → DenyRule R → Type 0
  Applies tool arguments rule =
      ((rule.tool ≡ none) ⊎ (rule.tool ≡ some tool))
      × (engine.is_match rule.pattern arguments ≡ true)

  names_tool_iff :
      (named : Option String) (tool : String)
      → (names_tool named tool ≡ true) ↔ ((named ≡ none) ⊎ (named ≡ some tool))
  names_tool_iff none tool = ground arith
  names_tool_iff (some named) tool = ground (arith, eq_iff named tool)

  and_iff : (a b : Bool) → ((a && b) ≡ true) ↔ ((a ≡ true) × (b ≡ true))
  and_iff a b = ground arith

  pub fires_iff :
      (tool arguments : String) (rule : DenyRule R)
      → (fires engine tool arguments rule ≡ true) ↔ Applies tool arguments rule
  unfolding fires
  fires_iff tool arguments rule =
      let (to, from) =
        and_iff (names_tool rule.tool tool) (engine.is_match rule.pattern arguments) in
      let (there, back) = names_tool_iff rule.tool tool in
      (λ h. (there (to h).0, (to h).1), λ h. from (back h.0, h.1))

  -- A call is reviewed by the operator's order: either no rule applies to it and there is no verdict,
  -- or the verdict is that of a rule that applies while none before it does.
  review_tool_call_lem :
      (rules : Rules R) (tool arguments : String)
      → ((review_tool_call engine rules tool arguments ≡ none)
          × All (λ rule. Applies tool arguments rule → ⊥) rules.deny_tool_arguments)
        ⊎ ((rule : DenyRule R) × (review_tool_call engine rules tool arguments
              ≡ some (verdict_of rule))
            × IsFirst (fires engine tool arguments) rule rules.deny_tool_arguments
            × Applies tool arguments rule)
  unfolding review_tool_call
  review_tool_call_lem rules tool arguments =
      elim (find-cases (fires engine tool arguments) rules.deny_tool_arguments) [
        | inl (f, none_fires) ↦
            inl (ap (Option.map verdict_of) f, no_rule rules.deny_tool_arguments none_fires)
        | inr (rule, f, first) ↦ inr (
          rule,
          ap (Option.map verdict_of) f,
          first,
          (fires_iff tool arguments rule).0 first.passes,
        )
      ]
    where
      no_rule :
          (xs : List (DenyRule R))
          → All (λ rule. fires engine tool arguments rule ≡ false) xs
          → All (λ rule. Applies tool arguments rule → ⊥) xs
      no_rule [] h = tt
      no_rule (x ∷ xs) (h, hs) =
          (λ applies. let e = (fires_iff tool arguments x).1 applies in cc, no_rule xs hs)
