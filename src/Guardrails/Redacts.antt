-- ===== src/Guardrails/Redacts.antt =====
-- pkgs/extensions/interceptor-guardrails: what a review makes of a text, and of a request's messages.
use jan_klod.Common.{
  ◌≡◌, ◌≢◌, ◌↔◌, inl, inr, refl, ap, sym, subst, ◌∙◌, arith, String, Bool, true, false, ◌&&◌, List,
  [], ◌∷◌, Option, none, some, All, IsFirst, find-cases, All-middle, Bool-cases, if◌then◌else◌,
}
use mathlib.Core.Option
use jan_klod.Permission.Rules.{or_else}
use jan_klod.Guardrails.Component.{is_blocked}
use jan_klod.Guardrails.Rules.{
  TextVerdict, redacted, blocked, Engine, TextRule, Rules, is_block, refuses, redact_one,
  redact_all, review_text,
}

module _ {R : Type 0} (engine : Engine R) where
  -- A text after the rules that replace, one after the other, whether or not anything is found.
  abbrev pub cleaned : List (TextRule R) → String → String
  cleaned [] text = text
  cleaned (rule ∷ rules) text = cleaned rules (
      if is_block rule.act
      then text
      else if engine.is_match rule.pattern text
      then engine.replace_all rule.pattern text rule.with_text
      else text)

  abbrev pub Matches : String → TextRule R → Type 0
  Matches text rule = engine.is_match rule.pattern text ≡ true

  redact_all-cleaned :
      (rules : List (TextRule R)) (text : String) (owned : Option String)
      → or_else (redact_all engine rules text owned) text ≡ cleaned rules (or_else owned text)
  unfolding redact_all
  redact_all-cleaned [] text owned = refl
  redact_all-cleaned (rule ∷ rules) text owned =
      redact_all-cleaned rules text (redact_one engine rule text owned)
      ∙ ap (cleaned rules)
          (one (is_block rule.act) (engine.is_match rule.pattern (or_else owned text)))
    where
      one :
          (b c : Bool)
          → or_else
              (if b
                then owned
                else if c
                then some (engine.replace_all rule.pattern (or_else owned text) rule.with_text)
                else owned)
              text
            ≡ (if b
                then or_else owned text
                else if c
                then engine.replace_all rule.pattern (or_else owned text) rule.with_text
                else or_else owned text)
      one true c = refl
      one false true = refl
      one false false = refl

  redact_all-some :
      (rules : List (TextRule R)) (text s : String) → redact_all engine rules text (some s) ≢ none
  unfolding redact_all
  redact_all-some [] text s = λ h. cc
  redact_all-some (rule ∷ rules) text s =
      again (λ t. redact_all-some rules text t) (is_block rule.act) (engine.is_match rule.pattern s)
    where
      again :
          ((t : String) → redact_all engine rules text (some t) ≢ none)
          → (b c : Bool)
          → redact_all engine rules text (
              if b
              then some s
              else if c
              then some (engine.replace_all rule.pattern s rule.with_text)
              else some s)
            ≢ none
      again ih true c = ih s
      again ih false true = ih _
      again ih false false = ih s

  -- Nothing is rewritten exactly if no rule that replaces finds its pattern.
  redact_all-none :
      (rules : List (TextRule R)) (text : String)
      → (redact_all engine rules text none ≡ none)
        ↔ All (λ rule. (is_block rule.act ≡ false) → Matches text rule → ⊥) rules
  unfolding redact_all
  redact_all-none [] text = (λ h. tt, λ h. refl)
  redact_all-none (rule ∷ rules) text = elim (Bool-cases (is_block rule.act)) [
    | inl e ↦
        rw e (
          λ h. (λ k. cc, (redact_all-none rules text).0 h),
          λ h. (redact_all-none rules text).1 h.1,
        )
    | inr e ↦ elim (Bool-cases (engine.is_match rule.pattern text)) [
      | inl m ↦
          rw (e, m) (λ h. absurd (redact_all-some rules text _ h), λ h. absurd (h.0 refl refl))
      | inr m ↦
          rw (e, m)
            (
              λ h. (λ _ k. cc, (redact_all-none rules text).0 h),
              λ h. (redact_all-none rules text).1 h.1,
            )
    ]
  ]

  refuses_iff :
      (text : String) (rule : TextRule R)
      → (refuses engine text rule ≡ true) ↔ ((is_block rule.act ≡ true) × Matches text rule)
  unfolding refuses
  refuses_iff text rule = both (is_block rule.act) (engine.is_match rule.pattern text)
    where
      both : (a b : Bool) → ((a && b) ≡ true) ↔ ((a ≡ true) × (b ≡ true))
      both a b = ground arith

  -- No rule that blocks is found in the text.
  abbrev pub Unblocked : List (TextRule R) → String → Type 0
  Unblocked rules text = All (λ rule. is_block rule.act ≡ true → Matches text rule → ⊥) rules

  unblocked :
      (rules : List (TextRule R)) (text : String)
      → All (λ rule. refuses engine text rule ≡ false) rules
      → Unblocked rules text
  unblocked [] text h = tt
  unblocked (rule ∷ rules) text (h, hs) =
      (λ b m. let e = (refuses_iff text rule).1 (b, m) in cc, unblocked rules text hs)

  unmatched :
      (rules : List (TextRule R)) (text : String)
      → Unblocked rules text
      → All (λ rule. (is_block rule.act ≡ false) → Matches text rule → ⊥) rules
      → All (λ rule. Matches text rule → ⊥) rules
  unmatched [] text h k = tt
  unmatched (rule ∷ rules) text (h, hs) (k, ks) = (
    λ m. elim (Bool-cases (is_block rule.act)) [ inl e ↦ h e m | inr e ↦ k e m ],
    unmatched rules text hs ks,
  )

  -- The three ways in which a review of a text ends.
  pub data Reviewed (rules : List (TextRule R)) (text : String) : Option TextVerdict → Type 0 where
    stands : All (λ rule. Matches text rule → ⊥) rules → Reviewed rules text none
    rewritten : Unblocked rules text → Reviewed rules text (some (redacted (cleaned rules text)))
    refused :
        (rule : TextRule R)
        → IsFirst (refuses engine text) rule rules
        → is_block rule.act ≡ true
        → Matches text rule
        → Reviewed rules text (some (blocked rule.reason))

  -- A text is let through as it is only if no rule is found in it. It is rewritten by the rules that
  -- replace, one after the other, only if no rule that blocks is found in it. It is refused with the
  -- reason of the first rule that blocks and is found in it.
  pub review_text-Reviewed :
      (rules : Rules R) (text : String) → Reviewed rules.redact text (review_text engine rules text)
  unfolding review_text
  review_text-Reviewed rules text = elim (find-cases (refuses engine text) rules.redact) [
    | inl (f, none_refuses) ↦ rw f (
        rest (unblocked rules.redact text none_refuses) (redact_all engine rules.redact text none)
          refl)
    | inr (rule, f, first) ↦
        let (is, found) = (refuses_iff text rule).0 first.passes in
        rw f (refused rule first is found)
  ]
    where
      rest :
          Unblocked rules.redact text
          → (owned : Option String) → redact_all engine rules.redact text none ≡ owned
          → Reviewed rules.redact text (Option.map redacted owned)
      rest h none e =
          stands (unmatched rules.redact text h ((redact_all-none rules.redact text).0 e))
      rest h (some s) e =
          subst (λ t. Reviewed rules.redact text (some (redacted t)))
            (sym (redact_all-cleaned rules.redact text none) ∙ ap (λ o. or_else o text) e)
            (rewritten h)

  -- No verdict that refuses comes of a text in which no rule that blocks is found, and no other verdict
  -- of a text in which one is.
  pub Reviewed-blocks :
      (rules : List (TextRule R)) (text : String) (v : Option TextVerdict)
      → Reviewed rules text v
      → (is_blocked v ≡ false) ↔ Unblocked rules text
  Reviewed-blocks rules text none (stands h) = (λ e. weaken rules h, λ k. refl)
    where
      weaken : (xs : List (TextRule R)) → All (λ rule. Matches text rule → ⊥) xs → Unblocked xs text
      weaken [] h = tt
      weaken (x ∷ xs) (h, hs) = (λ b. h, weaken xs hs)
  Reviewed-blocks rules text (some (redacted t)) (rewritten h) = (λ e. h, λ k. refl)
  Reviewed-blocks rules text (some (blocked reason)) (refused rule first is found) = (
    λ e. cc,
    λ k. absurd (
        All-middle (λ x. is_block x.act ≡ true → Matches text x → ⊥) first.before rule first.after
          (subst (λ l. Unblocked l text) first.split_at k) is found),
  )
