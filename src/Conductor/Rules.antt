-- ===== src/Conductor/Rules.antt =====
-- Rules for the effects of a turn: what holds of a run if it comes back (`Ensures`), and of a run
-- that does come back (`Returns`).
use jan_klod.Common.{◌≡◌, refl, Option, none, some, subst, sym}
use jan_klod.Conductor.Effects.{M, ◌>>=◌, continue_with}

pub data Ensures {W A : Type 0} (Q : A → W → Type 0) : Option (A × W) → Type 0 where
  pending : Ensures Q none
  back : {a : A} {w : W} → Q a w → Ensures Q (some (a, w))

pub data Returns {W A : Type 0} (Q : A → W → Type 0) : Option (A × W) → Type 0 where
  returns : {a : A} {w : W} → Q a w → Returns Q (some (a, w))

module _ {W A : Type 0} where
  Ensures_back :
      {Q : A → W → Type 0} {a : A} {w : W} {o : Option (A × W)}
      → Ensures Q o
      → o ≡ some (a, w)
      → Q a w
  Ensures_back pending e = cc
  Ensures_back {Q} (back q) e = subst (λ (x : Option (A × W)). Kept x) e q
    where
      Kept : Option (A × W) → Type 0
      Kept none = Unit {0}
      Kept (some (a, w)) = Q a w

  -- What a run ensures, of the value that it came back with.
  pub Ensures-some :
      {Q : A → W → Type 0} (o : Option (A × W)) {a : A} {w : W}
      → o ≡ some (a, w)
      → Ensures Q o
      → Q a w
  Ensures-some o e h = Ensures_back h e

  pub Ensures-of :
      {Q : A → W → Type 0} (o : Option (A × W))
      → ((a : A) (w : W) → o ≡ some (a, w) → Q a w)
      → Ensures Q o
  Ensures-of none h = pending
  Ensures-of (some (a, w)) h = back (h a w refl)

  pub Ensures-any : (o : Option (A × W)) → Ensures (λ (a : A) (w : W). Unit {0}) o
  Ensures-any none = pending
  Ensures-any (some (a, w)) = back tt

  pub Ensures-map :
      {Q R : A → W → Type 0} {o : Option (A × W)}
      → ((a : A) (w : W) → Q a w → R a w)
      → Ensures Q o
      → Ensures R o
  Ensures-map f pending = pending
  Ensures-map f (back q) = back (f _ _ q)

  pub returned : (a : A) (w : W) → Returns (λ (a : A) (w : W). Unit {0}) (some (a, w))
  returned a w = returns tt

  pub Returns-of_eq :
      (o : Option (A × W)) (x : A × W) → o ≡ some x → Returns (λ (a : A) (w : W). Unit {0}) o
  Returns-of_eq o x e = subst (Returns _) (sym e) (returns tt)

  pub Returns-some :
      {Q : A → W → Type 0} {o : Option (A × W)}
      → Returns Q o
      → (a : A) × (w : W) × (o ≡ some (a, w)) × Q a w
  Returns-some (returns {a} {w} q) = (a, w, refl, q)

  pub Returns-both :
      {Q R : A → W → Type 0} {o : Option (A × W)}
      → Returns Q o
      → Ensures R o
      → Returns (λ a w. Q a w × R a w) o
  Returns-both (returns q) h = returns (q, Ensures_back h refl)

module _ {W A B : Type 0} where
  continue_with-Ensures :
      {Q : A → W → Type 0} {R : B → W → Type 0} {o : Option (A × W)} (f : A → M W B)
      → Ensures Q o
      → ((a : A) (v : W) → Q a v → Ensures R (f a v))
      → Ensures R (continue_with o f)
  unfolding continue_with
  continue_with-Ensures f pending k = pending
  continue_with-Ensures f (back q) k = k _ _ q

  continue_with-Returns :
      {Q : A → W → Type 0} {R : B → W → Type 0} {o : Option (A × W)} (f : A → M W B)
      → Returns Q o
      → ((a : A) (v : W) → Q a v → Returns R (f a v))
      → Returns R (continue_with o f)
  unfolding continue_with
  continue_with-Returns f (returns q) k = k _ _ q

  pub >>=-Ensures :
      {Q : A → W → Type 0} {R : B → W → Type 0} (m : M W A) (f : A → M W B) (w : W)
      → Ensures Q (m w)
      → ((a : A) (v : W) → Q a v → Ensures R (f a v))
      → Ensures R ((m >>= f) w)
  unfolding ◌>>=◌
  >>=-Ensures m f w h k = continue_with-Ensures f h k

  pub >>=-Returns :
      {Q : A → W → Type 0} {R : B → W → Type 0} (m : M W A) (f : A → M W B) (w : W)
      → Returns Q (m w)
      → ((a : A) (v : W) → Q a v → Returns R (f a v))
      → Returns R ((m >>= f) w)
  unfolding ◌>>=◌
  >>=-Returns m f w h k = continue_with-Returns f h k
