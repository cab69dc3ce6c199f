-- ===== src/Guest/Placed.antt =====
-- pkgs/host/wasm/src/guest_storage.rs: where a namespace lands.
use jan_klod.Common.{
  arith, ℕ, ◌≡◌, refl, sym, ap, ◌∙◌, String, Bool, true, false, Bool-cases, [], ◌∷◌, Option, none,
  some, some-injective, inl, inr, format, strip_prefix, Result, ok, err, ok-injective, ok-ne-err,
  ◌==◌, if◌then◌else◌,
}
use Prim.Native.Char.{Char, code}
use Prim.Native.String
use text.Mathlib.TextLemmas.{nil-append, cons-append, append_cancel_left, append_assoc}
use jan_klod.Common.{split_once, before_split}
use jan_klod.Guest.{
  StorageFault, Backing, ephemeral, durable, GuestStorage, map_ok, within, owned, scope, outer,
  inside, unscope,
}

-- A name without a slash.
abbrev pub IsUnslashed : String → Type 0
IsUnslashed s = split_once 47 s ≡ none

abbrev slash : Char
slash = "/"

split_once-slash : (t : String) → split_once 47 (String.◌∷◌ slash t) ≡ some ("", t)
unfolding split_once
split_once-slash t = refl

split_once-append :
    (s t : String) → IsUnslashed s → split_once 47 (String.◌++◌ s (String.◌++◌ "/" t)) ≡ some (s, t)
unfolding split_once
split_once-append String.[] t h =
    ap (split_once 47) (nil-append (String.◌++◌ "/" t) ∙ cons-append slash "" t)
    ∙ split_once-slash (String.◌++◌ "" t)
    ∙ ap (λ u. some ("", u)) (nil-append t)
split_once-append (String.◌∷◌ c s) t h = elim (Bool-cases (code c == 47)) [
  | inl e ↦ absurd (some_ne (rw e at h))
  | inr e ↦
      ap (split_once 47) (cons-append c s (String.◌++◌ "/" t))
      ∙ rw e (ap (before_split c) (split_once-append s t (unsplit (split_once 47 s) (rw e at h))))
]
  where
    some_ne : {x : String × String} → ◌≡◌ {A = Option (String × String)} (some x) none → ⊥
    some_ne h = cc

    unsplit : (o : Option (String × String)) → before_split c o ≡ none → o ≡ none
    unsplit none h = refl
    unsplit (some x) h = cc

-- A prefix, a name without a slash and what is after the slash are told apart again.
pub format-injective :
    (p a b t u : String)
    → IsUnslashed a
    → IsUnslashed b
    → format (p ∷ a ∷ "/" ∷ t ∷ []) ≡ format (p ∷ b ∷ "/" ∷ u ∷ [])
    → (a ≡ b) × (t ≡ u)
format-injective p a b t u ha hb h =
    let same =
      append_cancel_left p (String.◌++◌ a (String.◌++◌ "/" t)) (String.◌++◌ b (String.◌++◌ "/" u))
        h in
    let pair =
      some-injective
        (sym (split_once-append a t ha) ∙ ap (split_once 47) same ∙ split_once-append b u hb) in
    (ap (λ x. x.0) pair, ap (λ x. x.1) pair)

strip_prefix-append : (p s : String) → strip_prefix (String.◌++◌ p s) p ≡ some s
unfolding strip_prefix
strip_prefix-append String.[] s = rw (nil-append s) refl
strip_prefix-append (String.◌∷◌ c p) s =
    ap (λ u. strip_prefix u (String.◌∷◌ c p)) (cons-append c p s)
    ∙ ap (λ b. if b then strip_prefix (String.◌++◌ p s) p else none) (same (code c))
    ∙ strip_prefix-append p s
  where
    same : (n : ℕ) → (n == n) ≡ true
    same n = ground arith

strip_prefix-format :
    (p a t : String)
    → strip_prefix (format (p ∷ a ∷ "/" ∷ t ∷ [])) (format (p ∷ a ∷ "/" ∷ [])) ≡ some t
strip_prefix-format p a t =
    ap (λ s. strip_prefix s (format (p ∷ a ∷ "/" ∷ [])))
      (sym (append_assoc p (String.◌++◌ a "/") t ∙ ap (String.◌++◌ p) (append_assoc a "/" t)))
    ∙ strip_prefix-append (format (p ∷ a ∷ "/" ∷ [])) t

inside-within :
    (by : Bool) (s : Option String) (ns inner : String)
    → within by s ns ≡ ok inner
    → inside by s inner ≡ ns
inside-within false s ns inner h = sym (ok-injective h)
inside-within true none ns inner h = absurd (ok-ne-err (sym h))
inside-within true (some session) ns inner h =
    rw (sym (ok-injective h), strip_prefix-format "s/" session ns) refl

-- A component sees the namespace that it asked for.
module _ {W : Type 0} where
  outer-owned : (b : Backing W) (inner : String) → outer b (owned b inner) ≡ inner
  outer-owned (ephemeral cells clock) inner = refl
  outer-owned (durable rows owner) inner = rw (strip_prefix-format "ext/" owner inner) refl

  pub unscope-scope :
      (g : GuestStorage W) (ns scoped : String) → scope g ns ≡ ok scoped → unscope g scoped ≡ ns
  unfolding scope unscope
  unscope-scope g ns scoped h = go (within g.by_session g.session ns) refl h
    where
      go :
          (r : Result String StorageFault)
          → within g.by_session g.session ns ≡ r
          → map_ok (owned g.backing) r ≡ ok scoped
          → inside g.by_session g.session (outer g.backing scoped) ≡ ns
      go (err e) q h = absurd (ok-ne-err (sym h))
      go (ok inner) q h =
          rw (sym (ok-injective h), outer-owned g.backing inner)
            (inside-within g.by_session g.session ns inner q)
