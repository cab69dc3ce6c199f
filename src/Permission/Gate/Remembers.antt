-- ===== src/Permission/Gate/Remembers.antt =====
-- pkgs/extensions/interceptor-permission/src/lib.rs: which decisions stand, on a storage that works.
use jan_klod.Common.{
  ℕ, suc, ◌+◌, ◌≤◌, ◌<◌, ◌≡◌, ◌≢◌, refl, ap, ◌∙◌, String, true, false, none, some, Result, ok,
  arith, leb, min, Bool-cases, inl, inr, decimal, trim,
}
use Prim.Native.String
use text.Mathlib.TextLemmas.{nil-append, cons-append}
use jan_klod.Json.{Codec, ◌>>=◌}
use jan_klod.Turn.{ToolCall}
use jan_klod.Intercept.Types.{Decision, InterceptorError}
use jan_klod.Permission.Rules.{Policy, not_known_safe, review, scope_key, or_else}
use jan_klod.Permission.Gate.Kinds.{Kind, kind_key, IsUnsafe, scope_key-IsUnsafe}
use jan_klod.Permission.Wording.{
  Answer, always, never, no, Standing, allow, deny, as_text, approves, standing, parse_answer,
  parse_standing,
}
use jan_klod.Permission.Wording.OneLine.{char_count}
use jan_klod.Permission.Gate.{
  Storage, counter_key, u32_max, parse_u32, parse_digits, refusals, count_refusal, recall, remember,
  remember_answer, refuse, block_call, decide_unanswered, finish_answer, decide_answered, gate,
}
use jan_klod.Permission.Gate.Decides.{asked, asked-eq}

-- A storage whose writes are read back, each under its own key.
pub record IsReliable {W : Type 0} (storage : Storage W) : Type 0 where
  pub reads_back :
      (key value : String) (w : W) → storage.get key (storage.set key value w) ≡ some value
  pub keeps_others :
      (other key value : String) (w : W)
      → other ≢ key
      → storage.get other (storage.set key value w) ≡ storage.get other w

zero_add : (n : ℕ) → n ≡ 0 + n
zero_add n = omega arith

suc_add : (m n : ℕ) → suc (m + n) ≡ suc m + n
suc_add m n = omega arith

char_count-◌++◌ : (s t : String) → char_count (String.◌++◌ s t) ≡ char_count s + char_count t
char_count-◌++◌ String.[] t = ap char_count (nil-append t) ∙ zero_add (char_count t)
char_count-◌++◌ (String.◌∷◌ c s) t =
    ap char_count (cons-append c s t)
    ∙ ap suc (char_count-◌++◌ s t)
    ∙ suc_add (char_count s) (char_count t)

-- The counter of a key is no key's own: it is longer.
counter_key-ne : (key : String) → key ≢ counter_key key
unfolding counter_key
counter_key-ne key e = longer (char_count key) (ap char_count e ∙ char_count-◌++◌ "refusals:" key)
  where
    longer : (n : ℕ) → n ≢ 9 + n
    longer n h = omega arith

parse_standing-as_text : (v : Standing) → parse_standing (as_text v) ≡ some v
unfolding parse_standing trim
parse_standing-as_text allow = refl
parse_standing-as_text deny = refl

module _ {W : Type 0} (storage : Storage W) (reliable : IsReliable storage) where
  recall-remember :
      (key : String) (v : Standing) (w : W) → recall storage key (remember storage key v w) ≡ some v
  unfolding recall remember
  recall-remember key v w = rw (reliable.reads_back key (as_text v) w) (parse_standing-as_text v)

  recall-count_refusal :
      (key : String) (w : W)
      → recall storage key (count_refusal storage key w).1 ≡ recall storage key w
  unfolding recall count_refusal
  recall-count_refusal key w =
      ap (λ o. o >>= parse_standing)
        (reliable.keeps_others key (counter_key key) _ w (counter_key-ne key))

  -- A refusal leaves a refused kind of call refused.
  recall-refuse :
      (key : String) (w : W)
      → recall storage key w ≡ some deny
      → recall storage key (refuse storage (some key) w).1 ≡ some deny
  unfolding refuse
  recall-refuse key w h = elim (Bool-cases (leb 3 (count_refusal storage key w).0)) [
    | inl e ↦ rw e (recall-remember key deny (count_refusal storage key w).1)
    | inr e ↦ rw e (recall-count_refusal key w ∙ h)
  ]

  -- The third refusal, or a later one, makes it stand.
  recall-refuse_third :
      (key : String) (w : W)
      → 3 ≤ refusals storage key w
      → recall storage key (refuse storage (some key) w).1 ≡ some deny
  unfolding refuse count_refusal
  recall-refuse_third key w h = elim (Bool-cases (leb 3 (refusals storage key w))) [
    | inl e ↦ rw e (recall-remember key deny _)
    | inr e ↦ absurd (ground arith)
  ]

module _ {W : Type 0} (codec : Codec) (lower : String → String) (storage : Storage W)
    (policy : Policy) (reliable : IsReliable storage) (call : ToolCall) (key : String)
    (keyed : scope_key codec lower call.name call.arguments ≡ key)
    (unsafe : review codec lower policy call.name call.arguments ≡ some not_known_safe) where
  abbrev after : String → W → W
  after reply w = (asked codec lower storage policy call (some reply) w).1

  -- What an unanswered call meets where a decision of its kind stands.
  asked_recalled :
      (v : Standing) (w : W)
      → recall storage key w ≡ some v
      → asked codec lower storage policy call none w
        ≡ (ok (decide_unanswered codec lower storage call not_known_safe (some v)), w)
  asked_recalled v w h =
      asked-eq codec lower storage policy call none (some not_known_safe) w unsafe
      ∙ unfold gate in
        ap (λ o. (ok (decide_unanswered codec lower storage call not_known_safe o), w))
          (ap (λ k. recall storage k w) keyed ∙ h)

  after-eq :
      (reply : String) (w : W)
      → after reply w
        ≡ (finish_answer codec lower storage call
            (some key)
            (approves (parse_answer lower reply))
            (remember_answer storage (some key) (standing (parse_answer lower reply)) w)).1
  after-eq reply w =
      ap (λ (r : Result Decision InterceptorError × W). r.1)
        (asked-eq codec lower storage policy call (some reply) (some not_known_safe) w unsafe)
      ∙ unfold gate decide_answered in
        ap
          (λ k.
            (finish_answer codec lower storage call (some k) (approves (parse_answer lower reply))
              (remember_answer storage (some k) (standing (parse_answer lower reply)) w)).1)
          keyed

  remembered-eq :
      (reply : String) (a : Answer) (w : W)
      → parse_answer lower reply ≡ a
      → after reply w
        ≡ (finish_answer codec lower storage call
            (some key)
            (approves a)
            (remember_answer storage (some key) (standing a) w)).1
  remembered-eq reply a w h =
      after-eq reply w
      ∙ ap
          (λ b.
            (finish_answer codec lower storage call (some key) (approves b)
              (remember_answer storage (some key) (standing b) w)).1)
          h

  -- On a storage that works, a call that is not known to be safe is let through without a question
  -- once the user has said `always` of its kind.
  asked-always :
      (reply : String) (w : W)
      → parse_answer lower reply ≡ always
      → asked codec lower storage policy call none (after reply w)
        ≡ (ok Decision.proceed, after reply w)
  asked-always reply w h =
      asked_recalled allow (after reply w) (
        ap (recall storage key) (remembered-eq reply always w h)
        ∙ recall-remember storage reliable key allow w)
      ∙ unfold decide_unanswered in refl

  -- On a storage that works, a call that is not known to be safe is refused without a question, as
  -- standing, once the user has said `never` of its kind.
  asked-never :
      (reply : String) (w : W)
      → parse_answer lower reply ≡ never
      → asked codec lower storage policy call none (after reply w)
        ≡ (ok (block_call codec lower storage call true), after reply w)
  asked-never reply w h =
      asked_recalled deny (after reply w) (
        ap (recall storage key) (remembered-eq reply never w h)
        ∙ recall-refuse storage reliable key (remember storage key deny w)
            (recall-remember storage reliable key deny w))
      ∙ unfold decide_unanswered in refl

  -- A refusal that is not the third is counted.
  refusals-after :
      (reply : String) (n : ℕ) (w : W)
      → parse_answer lower reply ≡ no
      → refusals storage key w ≡ n
      → n < 3
      → parse_u32 (decimal n) ≡ some n
      → refusals storage key (after reply w) ≡ n + 1
  refusals-after reply n w h e l p =
      ap (refusals storage key) (remembered-eq reply no w h ∙ unfinished)
      ∙ unfold refusals in
        ap (λ o. min (or_else (o >>= parse_u32) 0 + 1) u32_max)
          (reliable.reads_back (counter_key key) (decimal n) w)
        ∙ ap (λ o. min (or_else o 0 + 1) u32_max) p
        ∙ small n l
    where
      small : (n : ℕ) → n < 3 → min (n + 1) u32_max ≡ n + 1
      small n l = omega arith

      not_third : (n : ℕ) → n < 3 → leb 3 n ≡ false
      not_third n l = ground arith

      unfinished : (refuse storage (some key) w).1 ≡ storage.set (counter_key key) (decimal n) w
      unfinished = unfold refuse count_refusal in rw e (rw (not_third n l) refl)

  -- A third refusal makes the kind stand refused.
  recall-third :
      (reply : String) (w : W)
      → parse_answer lower reply ≡ no
      → refusals storage key w ≡ 3
      → recall storage key (after reply w) ≡ some deny
  recall-third reply w h e =
      ap (recall storage key) (remembered-eq reply no w h)
      ∙ recall-refuse_third storage reliable key w (omega (arith, e))

  refused_standing :
      (w : W)
      → recall storage key w ≡ some deny
      → asked codec lower storage policy call none w
        ≡ (ok (block_call codec lower storage call true), w)
  refused_standing w h = asked_recalled deny w h ∙ unfold decide_unanswered in refl

reads_1 : parse_u32 (decimal 1) ≡ some 1
reads_1 = unfold parse_u32 parse_digits decimal in refl

reads_2 : parse_u32 (decimal 2) ≡ some 2
reads_2 = unfold parse_u32 parse_digits decimal in refl

module _ {W : Type 0} (codec : Codec) (lower : String → String) (storage : Storage W)
    (policy : Policy) (reliable : IsReliable storage) (tool : String) (kind : Kind) where
  -- A call of the kind that the policy does not know to be safe, refused by the reply.
  abbrev pub answered : ToolCall → String → W → W
  answered call reply w = (asked codec lower storage policy call (some reply) w).1

  -- On a storage that works, once the user has refused three calls of a kind, each with an answer that
  -- is read as `no`, whatever else is in their arguments, with no refusal of the kind counted before,
  -- the next call of the kind is refused without a question, as standing. Calls are of a kind if they
  -- are of one tool and name one operation, or no operation and one program, or neither; and the
  -- review of each finds nothing but that it is not known to be safe.
  pub asked-third_refusal :
      (c1 c2 c3 next : ToolCall) (r1 r2 r3 : String) (w : W)
      → IsUnsafe codec lower policy tool kind c1
      → IsUnsafe codec lower policy tool kind c2
      → IsUnsafe codec lower policy tool kind c3
      → IsUnsafe codec lower policy tool kind next
      → storage.get (counter_key (kind_key lower tool kind)) w ≡ none
      → parse_answer lower r1 ≡ no
      → parse_answer lower r2 ≡ no
      → parse_answer lower r3 ≡ no
      → asked codec lower storage policy next none
          (answered c3 r3 (answered c2 r2 (answered c1 r1 w)))
        ≡ (
          ok (block_call codec lower storage next true),
          answered c3 r3 (answered c2 r2 (answered c1 r1 w)),
        )
  asked-third_refusal c1 c2 c3 next r1 r2 r3 w k1 k2 k3 k fresh h1 h2 h3 =
      let e1 : refusals storage (kind_key lower tool kind) w ≡ 1 =
        unfold refusals in ap (λ o. min (or_else (o >>= parse_u32) 0 + 1) u32_max) fresh in
      let e2 =
        refusals-after codec lower storage policy reliable c1 _ (scope_key-IsUnsafe k1) k1.unsafe r1
          1 w h1 e1 (omega arith) reads_1 in
      let e3 =
        refusals-after codec lower storage policy reliable c2 _ (scope_key-IsUnsafe k2) k2.unsafe r2
          2 (answered c1 r1 w) h2 e2 (omega arith) reads_2 in
      refused_standing codec lower storage policy reliable next _ (scope_key-IsUnsafe k) k.unsafe
        (answered c3 r3 (answered c2 r2 (answered c1 r1 w)))
        (recall-third codec lower storage policy reliable c3 _ (scope_key-IsUnsafe k3) k3.unsafe r3
          (answered c2 r2 (answered c1 r1 w)) h3 e3)
