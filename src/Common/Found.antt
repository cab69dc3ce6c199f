-- ===== src/Common/Found.antt =====
-- What `retain` keeps, and what `find` finds: the first member that passes, or that none does.
use mathlib.Core.Path.{◌≡◌, refl, ap}
use mathlib.Core.Logic.{◌⊎◌, inl, inr}
use mathlib.Core.Bool.{Bool, true, false}
use mathlib.Core.Option.{none, some}
use mathlib.Core.List.{List, [], ◌∷◌, ◌++◌}
use native.Mathlib.Omega.{arith}
use jan_klod.Common.Lists.{find, All, retain}
use jan_klod.Common.Tests.{Bool-cases}

module _ {ℓ} {A : Type ℓ} (p : A → Bool) where
  -- `x` is the first member of `xs` that passes.
  pub record IsFirst (x : A) (xs : List A) : Type ℓ where
    pub before : List A
    pub after : List A
    pub split_at : xs ≡ before ++ x ∷ after
    pub earlier : All (λ y. p y ≡ false) before
    pub passes : p x ≡ true

  pub find-cases :
      (xs : List A)
      → ((find p xs ≡ none) × All (λ y. p y ≡ false) xs)
        ⊎ ((x : A) × (find p xs ≡ some x) × IsFirst x xs)
  find-cases [] = inl (refl, tt)
  find-cases (x ∷ xs) = elim (Bool-cases (p x)) [
    | inl e ↦ inr (
      x,
      rw e refl,
      record { before = []; after = xs; split_at = refl; earlier = tt; passes = e },
    )
    | inr e ↦ elim (find-cases xs) [
      | inl (f, all_false) ↦ inl (rw e f, (e, all_false))
      | inr (y, f, first) ↦ inr (
        y,
        rw e f,
        record {
          before = x ∷ first.before;
          after = first.after;
          split_at = ap (λ l. x ∷ l) first.split_at;
          earlier = (e, first.earlier);
          passes = first.passes;
        },
      )
    ]
  ]

pub All-middle {ℓ κ} :
    {A : Type ℓ} (P : A → Type κ) (ys : List A) (x : A) (zs : List A) → All P (ys ++ x ∷ zs) → P x
All-middle P [] x zs (h, hs) = h
All-middle P (y ∷ ys) x zs (h, hs) = All-middle P ys x zs hs

pub retain-append {ℓ} :
    {A : Type ℓ} (p : A → Bool) (xs ys : List A) → retain p (xs ++ ys) ≡ retain p xs ++ retain p ys
retain-append p [] ys = refl
retain-append p (x ∷ xs) ys = ground (arith, retain-append p xs ys)

pub All-retain {ℓ κ} :
    {A : Type ℓ} (P : A → Type κ) (p : A → Bool) (xs : List A) → All P xs → All P (retain p xs)
All-retain P p [] h = tt
All-retain P p (x ∷ xs) (h, hs) = elim (Bool-cases (p x)) [
  | inl e ↦ rw (e, retain) (h, All-retain P p xs hs)
  | inr e ↦ rw (e, retain) (All-retain P p xs hs)
]
