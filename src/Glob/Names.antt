-- ===== src/Glob/Names.antt =====
-- pkgs/extensions/guest-fs/src/lib.rs: `match_name` against what a pattern means.
use jan_klod.Common.{
  ℕ, zero, suc, ◌+◌, ◌<◌, ◌≤◌, ◌≡◌, ◌↔◌, ◌⊎◌, inl, inr, refl, sym, subst, ap, ◌∙◌, arith, String,
  Bool, true, false, List, [], ◌∷◌, ◌++◌, none, some, all, All, length, Bool-cases, append_assoc,
}
use Prim.Native.Char.{Char}
use jan_klod.Glob.{
  is_star, fits, chars, Back, retry, branch, match_loop, rounds, enough, match_name,
}
use jan_klod.Glob.Means.{
  Glob, Tail, Ahead, nil-append, Glob-end, fits_plain, Tail-step, Ahead-step, Glob-star, Glob-plain,
}

-- A match from further on than where the last star stopped eating.
abbrev Later : Back → Type 0
Later none = ⊥
Later (some (after, [])) = ⊥
Later (some (after, y ∷ eaten)) = Tail after eaten

abbrev Keeps : List Char → List Char → Back → Type 0
Keeps pat text back = Later back → Ahead pat text

-- The rounds that are left, where patterns are at most `m` long.
abbrev left : ℕ → List Char → List Char → Back → ℕ
left m pat text none = rounds m text + length pat
left m pat text (some (after, eaten)) = rounds m eaten + length pat

-- The state is one that the loop comes to.
abbrev IsFit : ℕ → List Char → List Char → Back → Type 0
IsFit m pat text none = length pat ≤ m
IsFit m pat text (some (after, eaten)) =
    (length pat ≤ m)
    × (length after ≤ m)
    × (length text ≤ length eaten)
    × All (λ x. is_star x ≡ false) eaten

rounds-le : (m : ℕ) (xs ys : List Char) → length xs ≤ length ys → rounds m xs ≤ rounds m ys
rounds-le m [] ys h = omega arith
rounds-le m (x ∷ xs) [] h = omega arith
rounds-le m (x ∷ xs) (y ∷ ys) h = omega (arith, rounds-le m xs ys)

-- The loop ends, and says whether the rest of the pattern matches here, or from further on than where
-- the last star stopped eating.
abbrev Ends : ℕ → ℕ → List Char → List Char → Back → Type 0
Ends n m pat text back =
    (b : Bool) × (match_loop n pat text back ≡ some b) × ((b ≡ true) ↔ (Glob pat text ⊎ Later back))

abbrev IsInduction : ℕ → ℕ → Type 0
IsInduction n m =
    (pat text : List Char) (back : Back)
    → All (λ x. is_star x ≡ false) text
    → IsFit m pat text back
    → left m pat text back < n
    → Keeps pat text back
    → Ends n m pat text back

Keeps-self : (after eaten : List Char) → Keeps after eaten (some (after, eaten))
Keeps-self after [] h = h
Keeps-self after (y ∷ eaten) h = h

retry-Ends :
    (n m : ℕ) (back : Back) (pat : List Char) (x : Char) (text : List Char)
    → IsInduction n m
    → IsFit m pat (x ∷ text) back
    → left m pat (x ∷ text) back < suc n
    → (b : Bool) × (retry (match_loop n) back ≡ some b) × ((b ≡ true) ↔ Later back)
retry-Ends n m none pat x text ih fit room = (false, refl, (λ h. cc, λ h. absurd h))
retry-Ends n m (some (after, [])) pat x text ih (short, after_short, long, plain) room =
    absurd (omega arith)
retry-Ends n m (some (after, y ∷ eaten)) pat x text ih (short, after_short, long, (p, plain)) room =
    let (b, e, (to, from)) =
      ih after eaten (some (after, eaten)) plain (after_short, after_short, omega arith, plain)
        (omega arith) (Keeps-self after eaten) in
    (b, e, (λ h. join eaten (to h), λ h. from (part eaten h)))
  where
    join : (es : List Char) → Glob after es ⊎ Later (some (after, es)) → Tail after es
    join [] (inl g) = ([], [], refl, g)
    join [] (inr l) = absurd l
    join (z ∷ es) h = (Tail-step after z es).1 h

    part : (es : List Char) → Tail after es → Glob after es ⊎ Later (some (after, es))
    part [] (skipped, rest, e, g) = inl (subst (Glob after) (nil-append skipped rest e) g)
    part (z ∷ es) h = (Tail-step after z es).0 h

IsFit-char :
    (m : ℕ) (c : Char) (pat : List Char) (x : Char) (text : List Char) (back : Back)
    → IsFit m (c ∷ pat) (x ∷ text) back
    → IsFit m pat text back
IsFit-char m c pat x text none h = omega arith
IsFit-char m c pat x text (some (after, eaten)) (short, after_short, long, plain) =
    (omega arith, after_short, omega arith, plain)

left-char :
    (n m : ℕ) (c : Char) (pat : List Char) (x : Char) (text : List Char) (back : Back)
    → left m (c ∷ pat) (x ∷ text) back < suc n
    → left m pat text back < n
left-char n m c pat x text none h = omega arith
left-char n m c pat x text (some (after, eaten)) h = omega arith

IsFit-star :
    (m : ℕ) (c : Char) (pat text : List Char) (back : Back)
    → All (λ x. is_star x ≡ false) text
    → IsFit m (c ∷ pat) text back
    → IsFit m pat text (some (pat, text))
IsFit-star m c pat text none plain h = (omega arith, omega arith, omega arith, plain)
IsFit-star m c pat text (some (after, eaten)) plain (short, after_short, long, p) =
    (omega arith, omega arith, omega arith, plain)

left-star :
    (n m : ℕ) (c : Char) (pat text : List Char) (back : Back)
    → IsFit m (c ∷ pat) text back
    → left m (c ∷ pat) text back < suc n
    → left m pat text (some (pat, text)) < n
left-star n m c pat text none fit h = omega arith
left-star n m c pat text (some (after, eaten)) (short, after_short, long, p) h =
    omega (arith, rounds-le m text eaten long)

-- Matches of the rest of the pattern after a star, from here on or further on.
Tail-later :
    (c : Char) (pat : List Char) (text : List Char)
    → is_star c ≡ true
    → Tail (c ∷ pat) text
    → Tail pat text
Tail-later c pat text star (skipped, rest, e, g) =
    let (more, last, f, h) = (Glob-star c pat rest star).0 g in
    (skipped ++ more, last, e ∙ ap (λ l. skipped ++ l) f ∙ sym (append_assoc skipped more last), h)

module _ (n : ℕ) (c : Char) (pat : List Char) (x : Char) (text : List Char) (back : Back) where
  loop-char :
      fits c x ≡ true → match_loop (suc n) (c ∷ pat) (x ∷ text) back ≡ match_loop n pat text back
  unfolding match_loop
  loop-char f = ap (λ b. branch (match_loop n) pat x text back b (is_star c)) f

  loop-star :
      fits c x ≡ false
      → is_star c ≡ true
      → match_loop (suc n) (c ∷ pat) (x ∷ text) back
        ≡ match_loop n pat (x ∷ text) (some (pat, x ∷ text))
  unfolding match_loop
  loop-star f s =
      ap (λ b. branch (match_loop n) pat x text back b (is_star c)) f
      ∙ ap (λ b. branch (match_loop n) pat x text back false b) s

  loop-retry :
      fits c x ≡ false
      → is_star c ≡ false
      → match_loop (suc n) (c ∷ pat) (x ∷ text) back ≡ retry (match_loop n) back
  unfolding match_loop
  loop-retry f s =
      ap (λ b. branch (match_loop n) pat x text back b (is_star c)) f
      ∙ ap (λ b. branch (match_loop n) pat x text back false b) s

-- A sum whose parts are carried over.
either : {A B C : Type 0} → (A → C) → (B → C) → A ⊎ B → C
either f g (inl a) = f a
either f g (inr b) = g b

loop-Ends : (n m : ℕ) → IsInduction n m
unfolding match_loop
loop-Ends zero m pat text back plain fit room keeps = absurd (omega arith)
loop-Ends (suc n) m pat [] back plain fit room keeps = (
  all is_star pat,
  refl,
  (λ h. inl ((Glob-end pat).0 h), either (λ g. (Glob-end pat).1 g) (λ l. absurd (keeps l))),
)
loop-Ends (suc n) m [] (x ∷ text) back plain fit room keeps =
    let (b, e, (to, from)) = retry-Ends n m back [] x text (loop-Ends n m) fit room in
    (b, e, (λ h. inr (to h), either (λ g. absurd (filled g)) from))
  where
    filled : x ∷ text ≡ [] → ⊥
    filled g = cc
loop-Ends (suc n) m (c ∷ pat) (x ∷ text) back (p, plain) fit room keeps =
    elim (Bool-cases (fits c x)) [
      | inl f ↦
          let s = fits_plain c x p f in
          let (b, e, (to, from)) =
            loop-Ends n m pat text back plain (IsFit-char m c pat x text back fit)
              (left-char n m c pat x text back room) (λ l. Ahead-step c pat x text s (keeps l)) in
          let (there, here) = Glob-plain c pat x text s in
          (
            b,
            loop-char n c pat x text back f ∙ e,
            (
              λ h. either (λ g. inl (here (f, g))) (λ l. inr l) (to h),
              λ h. from (either (λ g. inl (there g).1) (λ l. inr l) h),
            ),
          )
      | inr f ↦ elim (Bool-cases (is_star c)) [
        | inl s ↦
            let (b, e, (to, from)) =
              loop-Ends n m pat (x ∷ text) (some (pat, x ∷ text)) (p, plain)
                (IsFit-star m c pat (x ∷ text) back (p, plain) fit)
                (left-star n m c pat (x ∷ text) back fit room) (λ l. l) in
            let (there, here) = Glob-star c pat (x ∷ text) s in
            let (open_tail, close_tail) = Tail-step pat x text in
            (
              b,
              loop-star n c pat x text back f s ∙ e,
              (
                λ h. inl (here (close_tail (to h))),
                λ h. from (
                    either (λ g. open_tail (there g)) (λ l. inr (Tail-later c pat text s (keeps l)))
                      h),
              ),
            )
        | inr s ↦
            let (b, e, (to, from)) =
              retry-Ends n m back (c ∷ pat) x text (loop-Ends n m) fit room in
            let (there, here) = Glob-plain c pat x text s in
            (
              b,
              loop-retry n c pat x text back f s ∙ e,
              (λ h. inr (to h), λ h. from (either (λ g. absurd (clash f (there g).0)) (λ l. l) h)),
            )
      ]
    ]
  where
    clash : {b : Bool} → b ≡ false → b ≡ true → ⊥
    clash h k = cc

-- On a name without a star, `match_name` says exactly whether the name is one that the pattern means:
-- its one memory, that of the last star, is enough.
pub match_name-Glob :
    (pattern name : String)
    → All (λ x. is_star x ≡ false) (chars name)
    → (match_name pattern name ≡ true) ↔ Glob (chars pattern) (chars name)
unfolding match_name
match_name-Glob pattern name plain =
    let (b, e, (to, from)) =
      loop-Ends (enough (chars pattern) (chars name)) (length (chars pattern)) (chars pattern)
        (chars name) none plain (omega arith) (omega arith) (λ l. absurd l) in
    rw e (λ h. either (λ g. g) (λ l. absurd l) (to h), λ g. from (inl g))
