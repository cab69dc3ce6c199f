-- ===== src/Glob/Means.antt =====
-- pkgs/extensions/guest-fs/src/lib.rs: what a pattern of names means.
use jan_klod.Common.{
  ◌≡◌, ◌↔◌, ◌⊎◌, inl, inr, refl, sym, subst, ap, ◌∙◌, arith, Bool, true, false, ◌&&◌, List, [], ◌∷◌,
  ◌++◌, all, append_assoc,
}
use Prim.Native.Char.{Char}
use jan_klod.Glob.{is_star, fits}

abbrev pub tail : List Char → List Char
tail [] = []
tail (x ∷ xs) = xs

abbrev pub head_or : Char → List Char → Char
head_or d [] = d
head_or d (x ∷ xs) = x

-- What a pattern means: a star stands for any text, any other character for one that it fits.
abbrev pub Glob : List Char → List Char → Type 0
Glob [] text = text ≡ []
Glob (c ∷ pat) text =
    ((is_star c ≡ true)
      × (skipped : List Char) × (rest : List Char) × (text ≡ skipped ++ rest)
      × Glob pat rest)
    ⊎ ((is_star c ≡ false)
        × (x : Char) × (rest : List Char) × (text ≡ x ∷ rest)
        × (fits c x ≡ true)
        × Glob pat rest)

-- `pat` matches some tail of `text`.
abbrev pub Tail : List Char → List Char → Type 0
Tail pat text =
    (skipped : List Char) × (rest : List Char) × (text ≡ skipped ++ rest) × Glob pat rest

-- A later match is one of what is left of the pattern, further on in the name.
abbrev pub Ahead : List Char → List Char → Type 0
Ahead pat [] = ⊥
Ahead pat (x ∷ text) = Tail pat text

pub nil-append : (xs ys : List Char) → [] ≡ xs ++ ys → ys ≡ []
nil-append [] ys h = sym h
nil-append (x ∷ xs) ys h = cc

pub Glob-nil : (c : Char) (pat : List Char) → Glob (c ∷ pat) [] → (is_star c ≡ true) × Glob pat []
Glob-nil c pat (inl (s, skipped, rest, e, g)) = (s, subst (Glob pat) (nil-append skipped rest e) g)
Glob-nil c pat (inr (s, x, rest, e, f, g)) = cc

pub and_true : (a b : Bool) → ((a && b) ≡ true) ↔ ((a ≡ true) × (b ≡ true))
and_true a b = ground arith

pub Glob-end : (pat : List Char) → (all is_star pat ≡ true) ↔ Glob pat []
Glob-end [] = (λ h. refl, λ h. refl)
Glob-end (c ∷ pat) =
    let (to, from) = and_true (is_star c) (all is_star pat) in
    (
      λ h. inl ((to h).0, [], [], refl, (Glob-end pat).0 (to h).1),
      λ g. from ((Glob-nil c pat g).0, (Glob-end pat).1 (Glob-nil c pat g).1),
    )

pub fits_plain : (c x : Char) → is_star x ≡ false → fits c x ≡ true → is_star c ≡ false
fits_plain c x h e = ground arith

pub Tail-step :
    (pat : List Char) (x : Char) (text : List Char)
    → Tail pat (x ∷ text) ↔ (Glob pat (x ∷ text) ⊎ Tail pat text)
Tail-step pat x text = (to, from)
  where
    to : Tail pat (x ∷ text) → Glob pat (x ∷ text) ⊎ Tail pat text
    to ([], rest, e, g) = inl (subst (Glob pat) (sym e) g)
    to (y ∷ skipped, rest, e, g) = inr (skipped, rest, ap tail e, g)

    from : Glob pat (x ∷ text) ⊎ Tail pat text → Tail pat (x ∷ text)
    from (inl g) = ([], x ∷ text, refl, g)
    from (inr (skipped, rest, e, g)) = (x ∷ skipped, rest, ap (λ l. x ∷ l) e, g)

-- One character further: what is ahead of a plain character is ahead of what follows it.
pub Ahead-step :
    (c : Char) (pat : List Char) (x : Char) (text : List Char)
    → is_star c ≡ false
    → Ahead (c ∷ pat) (x ∷ text)
    → Ahead pat text
Ahead-step c pat x text plain (skipped, rest, e, inl (s, u, v, d, g)) = cc
Ahead-step c pat x text plain (skipped, rest, e, inr (s, y, more, f, g, h)) =
    subst (Ahead pat) (sym (e ∙ ap (λ l. skipped ++ l) f)) (of_list skipped)
  where
    of_list : (m : List Char) → Ahead pat (m ++ y ∷ more)
    of_list [] = ([], more, refl, h)
    of_list (z ∷ m) = (m ++ y ∷ [], more, sym (append_assoc m (y ∷ []) more), h)

-- A star in front of the name.
pub Glob-star :
    (c : Char) (pat : List Char) (text : List Char)
    → is_star c ≡ true
    → Glob (c ∷ pat) text ↔ Tail pat text
Glob-star c pat text star = (to, λ h. inl (star, h.0, h.1, h.2, h.3))
  where
    to : Glob (c ∷ pat) text → Tail pat text
    to (inl (s, skipped, rest, e, g)) = (skipped, rest, e, g)
    to (inr (s, x, rest, e, f, g)) = cc

-- A plain character in front of the name.
pub Glob-plain :
    (c : Char) (pat : List Char) (x : Char) (text : List Char)
    → is_star c ≡ false
    → Glob (c ∷ pat) (x ∷ text) ↔ ((fits c x ≡ true) × Glob pat text)
Glob-plain c pat x text plain = (to, λ h. inr (plain, x, text, refl, h.0, h.1))
  where
    to : Glob (c ∷ pat) (x ∷ text) → (fits c x ≡ true) × Glob pat text
    to (inl (s, skipped, rest, e, g)) = cc
    to (inr (s, y, rest, e, f, g)) = (
      subst (λ z. fits c z ≡ true) (sym (ap (head_or x) e)) f,
      subst (Glob pat) (sym (ap tail e)) g,
    )
