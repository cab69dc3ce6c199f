-- ===== src/Guardrails/Whole.antt =====
-- pkgs/extensions/interceptor-guardrails/src/rules.rs: a section is read as a whole or not at all.
use jan_klod.Common.{◌≡◌, List, [], ◌∷◌, Result, ok}
use jan_klod.Guardrails.Rules.{Rules}

module _ {A B E : Type 0} (f : A → Result B E) where
  -- Each entry is read, in order, and nothing else is.
  abbrev pub Reads : List A → List B → Type 0
  Reads [] [] = Unit
  Reads [] (y ∷ ys) = ⊥
  Reads (x ∷ xs) [] = ⊥
  Reads (x ∷ xs) (y ∷ ys) = (f x ≡ ok y) × Reads xs ys
