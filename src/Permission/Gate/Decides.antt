-- ===== src/Permission/Gate/Decides.antt =====
-- pkgs/extensions/interceptor-permission/src/lib.rs: what an answer comes to, and what is never remembered.
use jan_klod.Common.{
  ◌≡◌, ◌≢◌, refl, sym, ap, ◌∙◌, String, Bool, true, false, Option, none, some, Result, ok, List, [],
  ◌∷◌, ◌++◌, ◌&&◌, ◌||◌, not, any, str_eq, trim, subst, Bool-cases, inl, inr, if◌then◌else◌,
}
use jan_klod.Json.{Codec}
use jan_klod.Turn.{ToolCall, UserPrompt}
use jan_klod.Intercept.Types.{Phase, HookState, Decision, InterceptorError}
use jan_klod.Intercept.Halts.{IsDecisive}
use jan_klod.Permission.Rules.{
  Policy, Concern, not_known_safe, escapes_scope, touches_credentials, is_rememberable, review,
  describe, some_if, scope_key,
}
use jan_klod.Permission.Wording.{
  once, always, never, no, approves, standing, parse_answer, summarise,
}
use jan_klod.Permission.Gate.{
  Storage, scope_of, prompt_for, decide_unanswered, finish_answer, decide_answered, gate, decided,
  intercept_state, permission_interceptor, remember_answer, recall_scope, refuse, block_call,
  question_for,
}

-- The words that approve, once or from now on.
abbrev pub approvals : List String
approvals =
    "y" ∷ "yes" ∷ "allow" ∷ "approve" ∷ "ok" ∷ "a" ∷ "always" ∷ "yes-always" ∷ "allow-always" ∷ []

abbrev pub raises : Option Concern → Bool
raises none = false
raises (some concern) = true

any-append : (p : String → Bool) (xs ys : List String) → any p (xs ++ ys) ≡ (any p xs || any p ys)
any-append p [] ys = refl
any-append p (x ∷ xs) ys = elim (Bool-cases (p x)) [
  | inl e ↦ rw e refl
  | inr e ↦ rw e (any-append p xs ys)
]

approves-chosen :
    (a b c : Bool)
    → approves (if a then once else if b then always else if c then never else no) ≡ (a || b)
approves-chosen true b c = refl
approves-chosen false true c = refl
approves-chosen false false true = refl
approves-chosen false false false = refl

approves-parse_answer :
    (lower : String → String) (reply : String)
    → approves (parse_answer lower reply) ≡ any (str_eq (lower (trim reply))) approvals
unfolding parse_answer
approves-parse_answer lower reply =
    let said = str_eq (lower (trim reply)) in
    approves-chosen (any said ("y" ∷ "yes" ∷ "allow" ∷ "approve" ∷ "ok" ∷ []))
      (any said ("a" ∷ "always" ∷ "yes-always" ∷ "allow-always" ∷ []))
      (any said ("never" ∷ "no-never" ∷ "deny-always" ∷ []))
    ∙ sym (
        any-append said ("y" ∷ "yes" ∷ "allow" ∷ "approve" ∷ "ok" ∷ [])
          ("a" ∷ "always" ∷ "yes-always" ∷ "allow-always" ∷ []))

module _ {W : Type 0} (codec : Codec) (lower : String → String) (storage : Storage W)
    (policy : Policy) where
  finish_answer-ne-ask :
      (call : ToolCall) (scope : Option String) (b : Bool) (w : W) (q : UserPrompt)
      → (finish_answer codec lower storage call scope b w).0 ≢ Decision.ask q
  finish_answer-ne-ask call scope true w q = λ e. cc
  finish_answer-ne-ask call scope false w q = λ e. cc

  gate-ne-ask :
      (call : ToolCall) (reply : String) (o : Option Concern) (w : W) (q : UserPrompt)
      → (gate codec lower storage call (some reply) o w).0 ≢ Decision.ask q
  unfolding gate decide_answered
  gate-ne-ask call reply none w q = λ e. cc
  gate-ne-ask call reply (some concern) w q = finish_answer-ne-ask call _ _ _ q

  ok-ask :
      (d : Decision × W) (q : UserPrompt)
      → d.0 ≢ Decision.ask q
      → (decided codec lower storage d).0 ≢ ok (Decision.ask q)
  ok-ask (d, w) q h e = h cc

  intercept_state-ne-ask :
      (s : HookState) (reply : String) (w : W) (q : UserPrompt)
      → (intercept_state codec lower storage policy (some reply) s w).0 ≢ ok (Decision.ask q)
  unfolding intercept_state
  intercept_state-ne-ask (HookState.tool_call call) reply w q =
      ok-ask
        (gate codec lower storage call (some reply)
          (review codec lower policy call.name call.arguments) w)
        q (gate-ne-ask call reply (review codec lower policy call.name call.arguments) w q)
  intercept_state-ne-ask (HookState.before_loop t) reply w q = λ e. cc
  intercept_state-ne-ask (HookState.select_model r) reply w q = λ e. cc
  intercept_state-ne-ask (HookState.select_context r) reply w q = λ e. cc
  intercept_state-ne-ask (HookState.select_tools r) reply w q = λ e. cc
  intercept_state-ne-ask (HookState.after_response r) reply w q = λ e. cc
  intercept_state-ne-ask (HookState.tool_result o) reply w q = λ e. cc
  intercept_state-ne-ask (HookState.finalize a) reply w q = λ e. cc
  intercept_state-ne-ask (HookState.prepare_next_turn r) reply w q = λ e. cc

  -- The permission gate decides once it has its answer, so it never keeps a dispatch from coming back.
  permission_interceptor-IsDecisive : IsDecisive (permission_interceptor codec lower storage policy)
  unfolding permission_interceptor
  permission_interceptor-IsDecisive phase s reply w q = intercept_state-ne-ask s reply w q

  -- The gate on one call, with or without an answer.
  abbrev pub asked : ToolCall → Option String → W → Result Decision InterceptorError × W
  asked call answer w =
      (permission_interceptor codec lower storage policy).intercept
        (record { phase = Phase.tool_call; state = HookState.tool_call call; answer = answer }) w

  pub asked-eq :
      (call : ToolCall) (answer : Option String) (o : Option Concern) (w : W)
      → review codec lower policy call.name call.arguments ≡ o
      → asked call answer w ≡ decided codec lower storage (gate codec lower storage call answer o w)
  unfolding permission_interceptor intercept_state
  asked-eq call answer o w e = rw e refl

  finish_answer-block :
      (call : ToolCall) (scope : Option String) (b : Bool) (w : W)
      → (stands : Bool) × ((finish_answer codec lower storage call scope b w).0
          ≡ (if not b then block_call codec lower storage call stands else Decision.proceed))
  finish_answer-block call scope true w = (false, refl)
  finish_answer-block call scope false w = ((refuse storage scope w).0, refl)

  answered-approves :
      (call : ToolCall) (reply : String) (concern : Concern) (w : W)
      → (stands : Bool) × ((gate codec lower storage call (some reply) (some concern) w).0 ≡ (
          if not (any (str_eq (lower (trim reply))) approvals)
          then block_call codec lower storage call stands
          else Decision.proceed))
  unfolding gate decide_answered
  answered-approves call reply concern w =
      subst
        (λ b.
          (stands : Bool) × ((gate codec lower storage call (some reply) (some concern) w).0
            ≡ (if not b then block_call codec lower storage call stands else Decision.proceed)))
        (approves-parse_answer lower reply)
        (finish_answer-block call (scope_of codec lower storage call concern)
          (approves (parse_answer lower reply)) _)

  -- An answered call is let through exactly if the review raises no concern or the answer, trimmed and
  -- in lower case, is one of the nine words of approval; any other answer, also one that nobody
  -- foresaw, refuses it.
  pub asked-approves :
      (call : ToolCall) (reply : String) (w : W)
      → (stands : Bool) × ((asked call (some reply) w).0
          ≡ ok (
              if raises (review codec lower policy call.name call.arguments)
                && not (any (str_eq (lower (trim reply))) approvals)
              then block_call codec lower storage call stands
              else Decision.proceed))
  asked-approves call reply w = reviewed (review codec lower policy call.name call.arguments) refl
    where
      reviewed :
          (o : Option Concern)
          → review codec lower policy call.name call.arguments ≡ o
          → (stands : Bool) × ((asked call (some reply) w).0
              ≡ ok (
                  if raises o && not (any (str_eq (lower (trim reply))) approvals)
                  then block_call codec lower storage call stands
                  else Decision.proceed))
      reviewed none e =
          (false, ap (λ r. r.0) (asked-eq call (some reply) none w e) ∙ unfold gate in refl)
      reviewed (some concern) e =
          let (stands, answered) = answered-approves call reply concern w in
          (stands, ap (λ r. r.0) (asked-eq call (some reply) (some concern) w e) ∙ ap ok answered)

  -- A concern over a path or a credentials file is put to the user each time, whatever is stored: the
  -- question offers `yes` and `no` and no answer that would stand, and falls back to `no`; and neither
  -- the question nor any answer changes the store.
  pub asked-not_remembered :
      (call : ToolCall) (reply : String) (concern : Concern) (w : W)
      → review codec lower policy call.name call.arguments ≡ some concern
      → concern ≢ not_known_safe
      → (q : UserPrompt) × (asked call none w ≡ (ok (Decision.ask q), w))
        × (q.options ≡ "yes" ∷ "no" ∷ [])
        × (q.default_answer ≡ "no")
        × ((asked call (some reply) w).1 ≡ w)
  asked-not_remembered call reply concern w e u = (
    prompt_for codec lower storage call concern,
    asked-eq call none (some concern) w e ∙ ap (decided codec lower storage) unasked,
    ap (λ o. (asks o).options) no_scope ∙ (unfold question_for in refl),
    ap (λ o. (asks o).default_answer) no_scope ∙ (unfold question_for in refl),
    ap (λ (r : Result Decision InterceptorError × W). r.1)
          (asked-eq call (some reply) (some concern) w e)
        ∙ kept,
  )
    where
      for_once : (c : Concern) → c ≢ not_known_safe → is_rememberable c ≡ false
      for_once not_known_safe h = absurd (h refl)
      for_once escapes_scope h = refl
      for_once touches_credentials h = refl

      no_scope : scope_of codec lower storage call concern ≡ none
      no_scope =
          ap (λ b. some_if b (scope_key codec lower call.name call.arguments)) (for_once concern u)

      asks : Option String → UserPrompt
      asks =
          question_for call.name (summarise codec lower call.name call.arguments)
            (describe concern call.name)

      unasked :
          gate codec lower storage call none (some concern) w
          ≡ (Decision.ask (prompt_for codec lower storage call concern), w)
      unasked =
          unfold gate in
          ap
            (λ o.
              (decide_unanswered codec lower storage call concern (recall_scope storage o w), w))
            no_scope
          ∙ (unfold decide_unanswered in refl)

      finish_kept : (b : Bool) → (finish_answer codec lower storage call none b w).1 ≡ w
      finish_kept true = refl
      finish_kept false = unfold refuse in refl

      kept : (gate codec lower storage call (some reply) (some concern) w).1 ≡ w
      kept =
          unfold gate decide_answered in
          ap
            (λ o.
              (finish_answer codec lower storage call o (approves (parse_answer lower reply))
                (remember_answer storage o (standing (parse_answer lower reply)) w)).1)
            no_scope
          ∙ finish_kept (approves (parse_answer lower reply))
