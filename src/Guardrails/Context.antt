-- ===== src/Guardrails/Context.antt =====
-- pkgs/extensions/interceptor-guardrails/src/lib.rs: what leaves in a request.
use jan_klod.Common.{
  ◌≡◌, ◌⊎◌, inl, inr, refl, sym, ap, arith, ◌∙◌, String, Bool, true, ◌&&◌, false, ◌↔◌, List, [],
  ◌∷◌, map, Option, none, some, format, ok, all, All, Bool-cases, if◌then◌else◌,
}
use mathlib.Core.Option
use jan_klod.Turn.{Message}
use jan_klod.Intercept.Types.{Phase, PendingRequest, HookState, BlockReason}
use jan_klod.Intercept.Dispatch
use jan_klod.Intercept.Dispatch.{Judgement, ends, settled, judge}
use jan_klod.Guardrails.Rules.{TextVerdict, redacted, blocked, Engine, TextRule, Rules, review_text}
use jan_klod.Guardrails.Component.{
  is_blocked, is_none, redact_message, redact_messages, rewrite_context, first_blocked,
  judge_context, guard_state,
}
use jan_klod.Guardrails.Redacts.{
  cleaned, Matches, Unblocked, Reviewed, stands, rewritten, refused, review_text-Reviewed,
  Reviewed-blocks,
}

-- Either a verdict refuses, or none does.
first_blocked-cases :
    (vs : List (Option TextVerdict))
    → ((reason : String) × (first_blocked vs ≡ some (blocked reason))
        × (All (λ v. is_blocked v ≡ false) vs → ⊥))
      ⊎ ((first_blocked vs ≡ none) × All (λ v. is_blocked v ≡ false) vs)
unfolding Option.bind
first_blocked-cases [] = inr (refl, tt)
first_blocked-cases (none ∷ vs) = elim (first_blocked-cases vs) [
  | inl (reason, f, h) ↦ inl (reason, f, λ k. h k.1)
  | inr (f, h) ↦ inr (f, (refl, h))
]
first_blocked-cases (some (redacted t) ∷ vs) = elim (first_blocked-cases vs) [
  | inl (reason, f, h) ↦ inl (reason, f, λ k. h k.1)
  | inr (f, h) ↦ inr (f, (refl, h))
]
first_blocked-cases (some (blocked reason) ∷ vs) = inl (reason, refl, λ k. let e = k.0 in cc)

module _ {R : Type 0} (engine : Engine R) (rules : Rules R) where
  -- A message with the text that the rules leave of its content.
  abbrev pub clean_message : Message → Message
  clean_message m = record m { content = cleaned engine rules.redact m.content }

  abbrev review_message : Message → Option TextVerdict
  review_message m = review_text engine rules m.content

  cleaned_stands :
      (xs : List (TextRule R)) (text : String)
      → All (λ rule. Matches engine text rule → ⊥) xs
      → cleaned engine xs text ≡ text
  cleaned_stands [] text h = refl
  cleaned_stands (rule ∷ xs) text (h, hs) = elim (Bool-cases (engine.is_match rule.pattern text)) [
    | inl e ↦ absurd (h e)
    | inr e ↦ ap (cleaned engine xs) (kept _ _ _ e) ∙ cleaned_stands xs text hs
  ]
    where
      kept :
          (b c : Bool) (t : String) → c ≡ false → (if b then text else if c then t else text) ≡ text
      kept true c t e = refl
      kept false true t e = cc
      kept false false t e = refl

  redact_message-clean :
      (m : Message) (v : Option TextVerdict)
      → Reviewed engine rules.redact m.content v
      → is_blocked v ≡ false
      → redact_message m v ≡ clean_message m
  redact_message-clean m none (stands h) e =
      ap (λ t. record m { content = t }) (sym (cleaned_stands rules.redact m.content h))
  redact_message-clean m (some (redacted t)) (rewritten h) e = refl
  redact_message-clean m (some (blocked reason)) (refused rule first is found) e = cc

  redact_messages-clean :
      (ms : List Message)
      → All (λ v. is_blocked v ≡ false) (map review_message ms)
      → redact_messages ms (map review_message ms) ≡ map clean_message ms
  unfolding redact_messages
  redact_messages-clean [] h = refl
  redact_messages-clean (m ∷ ms) (h, hs) =
      rw (redact_message-clean m (review_message m) (review_text-Reviewed engine rules m.content) h)
        (ap (λ l. clean_message m ∷ l) (redact_messages-clean ms hs))

  Reviewed-stands :
      (m : Message) (v : Option TextVerdict)
      → Reviewed engine rules.redact m.content v
      → is_none v ≡ true
      → clean_message m ≡ m
  Reviewed-stands m none (stands h) e =
      ap (λ t. record m { content = t }) (cleaned_stands rules.redact m.content h)
  Reviewed-stands m (some (redacted t)) r e = cc
  Reviewed-stands m (some (blocked reason)) r e = cc

  -- Where no verdict rewrites, the clean messages are the messages.
  all_none-clean :
      (ms : List Message) → all is_none (map review_message ms) ≡ true → map clean_message ms ≡ ms
  all_none-clean [] h = refl
  all_none-clean (m ∷ ms) h =
      let (first, later) = both _ _ h in
      rw (Reviewed-stands m (review_message m) (review_text-Reviewed engine rules m.content) first)
        (ap (λ l. m ∷ l) (all_none-clean ms later))
    where
      both : (a b : Bool) → (a && b) ≡ true → (a ≡ true) × (b ≡ true)
      both a b e = ground arith

  -- No rule that blocks is found in the message.
  abbrev pub Clear : Message → Type 0
  Clear m = Unblocked engine rules.redact m.content

  Clear-iff :
      (ms : List Message) → All (λ v. is_blocked v ≡ false) (map review_message ms) ↔ All Clear ms
  Clear-iff [] = (λ h. tt, λ h. tt)
  Clear-iff (m ∷ ms) =
      let (to, from) =
        Reviewed-blocks engine rules.redact m.content (review_message m)
          (review_text-Reviewed engine rules m.content) in
      let (there, back) = Clear-iff ms in (λ h. (to h.0, there h.1), λ h. (from h.0, back h.1))

  abbrev clean_request : PendingRequest → PendingRequest
  clean_request request = record request { messages = map clean_message request.messages }

  rewrite_context-judge :
      (id : String) (request : PendingRequest)
      → All (λ v. is_blocked v ≡ false) (map review_message request.messages)
      → judge Phase.select_context id
          (HookState.select_context request)
          (ok (rewrite_context request (map review_message request.messages)))
        ≡ ends (settled (HookState.select_context (clean_request request)))
  unfolding rewrite_context judge
  rewrite_context-judge id request h =
      elim (Bool-cases (all is_none (map review_message request.messages))) [
        | inl e ↦ rw e (
            ap (λ ms. ends (settled (HookState.select_context (record request { messages = ms }))))
              (sym (all_none-clean request.messages e)))
        | inr e ↦ rw e (
            ap (λ ms. ends (settled (HookState.select_context (record request { messages = ms }))))
              (redact_messages-clean request.messages h))
      ]

  -- What the dispatcher makes of a request that the guardrails review_message: if a rule that blocks is found
  -- in a message, the turn is refused; otherwise the request goes on with each message's content
  -- cleaned by the rules that replace, and with all else as it was.
  pub guard_state-context :
      (id : String) (answer : Option String) (request : PendingRequest)
      → (All Clear request.messages
          × (judge Phase.select_context id
                (HookState.select_context request)
                (guard_state engine (ok rules) answer (HookState.select_context request))
              ≡ ends (settled (HookState.select_context (clean_request request)))))
        ⊎ ((All Clear request.messages → ⊥)
            × ((reason : BlockReason) × (judge Phase.select_context id
                    (HookState.select_context request)
                    (guard_state engine (ok rules) answer (HookState.select_context request))
                  ≡ ends (Dispatch.refused reason))))
  unfolding guard_state judge_context
  guard_state-context id answer request =
      elim (first_blocked-cases (map review_message request.messages)) [
        | inl (reason, f, h) ↦ inr (
          λ k. h ((Clear-iff request.messages).1 k),
          (
            record { message = format ("the request was refused by a guardrail: " ∷ reason ∷ []) },
            rw f (unfold judge in refl),
          ),
        )
        | inr (f, h) ↦
            inl ((Clear-iff request.messages).0 h, rw f (rewrite_context-judge id request h))
      ]
