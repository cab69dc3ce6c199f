-- ===== src/Glob/Paths.antt =====
-- pkgs/extensions/guest-fs/src/lib.rs: `matches` against what a pattern of paths means.
use jan_klod.Common.{
  ◌≡◌, ◌≢◌, ◌↔◌, ◌⊎◌, inl, inr, refl, sym, subst, ap, arith, String, Bool, true, false, ◌&&◌, ◌||◌,
  List, [], ◌∷◌, ◌++◌, All, str_eq, eq_iff, if◌then◌else◌,
}
use jan_klod.Glob.{
  is_star, chars, match_name, any_tail, match_first, match_segments, segments, matches,
}
use jan_klod.Glob.Means.{Glob}
use jan_klod.Glob.Names.{match_name-Glob}

-- What a pattern of segments means: `**` stands for any number of segments, any other segment of it
-- for one name that it means.
abbrev pub PathGlob : List String → List String → Type 0
PathGlob [] seg = seg ≡ []
PathGlob (head ∷ rest) seg =
    ((head ≡ "**")
      × (skipped : List String) × (left : List String) × (seg ≡ skipped ++ left)
      × PathGlob rest left)
    ⊎ ((head ≢ "**")
        × (name : String) × (left : List String) × (seg ≡ name ∷ left)
        × Glob (chars head) (chars name)
        × PathGlob rest left)

-- The name has no star.
abbrev pub IsPlain : String → Type 0
IsPlain name = All (λ x. is_star x ≡ false) (chars name)

or_iff : (a b : Bool) → ((a || b) ≡ true) ↔ ((a ≡ true) ⊎ (b ≡ true))
or_iff a b = ground arith

and_iff : (a b : Bool) → ((a && b) ≡ true) ↔ ((a ≡ true) × (b ≡ true))
and_iff a b = ground arith

abbrev Some : (List String → Type 0) → List String → Type 0
Some P seg = (skipped : List String) × (left : List String) × (seg ≡ skipped ++ left) × P left

Some-nil : (P : List String → Type 0) → Some P [] ↔ P []
Some-nil P = (to, λ h. ([], [], refl, h))
  where
    to : Some P [] → P []
    to ([], left, e, h) = subst P (sym e) h
    to (x ∷ skipped, left, e, h) = cc

abbrev first_of : String → List String → String
first_of default [] = default
first_of default (s ∷ ss) = s

abbrev rest_of : List String → List String
rest_of [] = []
rest_of (s ∷ ss) = ss

Some-cons :
    (P : List String → Type 0) (s : String) (ss : List String)
    → Some P (s ∷ ss) ↔ (P (s ∷ ss) ⊎ Some P ss)
Some-cons P s ss = (to, from)
  where
    to : Some P (s ∷ ss) → P (s ∷ ss) ⊎ Some P ss
    to ([], left, e, h) = inl (subst P (sym e) h)
    to (x ∷ skipped, left, e, h) = inr (skipped, left, ap rest_of e, h)

    from : P (s ∷ ss) ⊎ Some P ss → Some P (s ∷ ss)
    from (inl h) = ([], s ∷ ss, refl, h)
    from (inr (skipped, left, e, h)) = (s ∷ skipped, left, ap (λ l. s ∷ l) e, h)

any_tail_iff :
    (p : List String → Bool) (P : List String → Type 0) (seg : List String)
    → All IsPlain seg
    → ((l : List String) → All IsPlain l → (p l ≡ true) ↔ P l)
    → (any_tail p seg ≡ true) ↔ Some P seg
any_tail_iff p P [] plain h =
    (λ e. (Some-nil P).1 ((h [] tt).0 e), λ k. (h [] tt).1 ((Some-nil P).0 k))
any_tail_iff p P (s ∷ ss) (plain, plains) h =
    let (to, from) = or_iff (p (s ∷ ss)) (any_tail p ss) in
    let (there, back) = h (s ∷ ss) (plain, plains) in
    let (later, sooner) = any_tail_iff p P ss plains h in
    let (open_some, close_some) = Some-cons P s ss in
    (λ e. close_some (either there later (to e)), λ k. from (either back sooner (open_some k)))
  where
    either : {A B C D : Type 0} → (A → C) → (B → D) → A ⊎ B → C ⊎ D
    either f g (inl a) = inl (f a)
    either f g (inr b) = inr (g b)

module _ (head : String) (rest : List String) where
  PathGlob-deep :
      (seg : List String) → head ≡ "**" → PathGlob (head ∷ rest) seg ↔ Some (PathGlob rest) seg
  PathGlob-deep seg e = (to, λ h. inl (e, h.0, h.1, h.2, h.3))
    where
      to : PathGlob (head ∷ rest) seg → Some (PathGlob rest) seg
      to (inl (k, skipped, left, f, g)) = (skipped, left, f, g)
      to (inr (k, name, left, f, m, g)) = absurd (k e)

  PathGlob-name :
      (name : String) (left : List String)
      → head ≢ "**"
      → PathGlob (head ∷ rest) (name ∷ left) ↔ (Glob (chars head) (chars name) × PathGlob rest left)
  PathGlob-name name left k = (to, λ h. inr (k, name, left, refl, h.0, h.1))
    where
      to :
          PathGlob (head ∷ rest) (name ∷ left) → Glob (chars head) (chars name) × PathGlob rest left
      to (inl (e, skipped, more, f, g)) = absurd (k e)
      to (inr (j, x, more, f, m, g)) = (
        subst (λ n. Glob (chars head) (chars n)) (sym (ap (first_of name) f)) m,
        subst (PathGlob rest) (sym (ap rest_of f)) g,
      )

  module _ (next : List String → Bool)
      (ih : (l : List String) → All IsPlain l → (next l ≡ true) ↔ PathGlob rest l) where
    first_iff :
        (seg : List String)
        → All IsPlain seg
        → head ≢ "**"
        → (match_first head next seg ≡ true) ↔ PathGlob (head ∷ rest) seg
    first_iff [] plain k = (λ h. cc, none_left)
      where
        none_left : PathGlob (head ∷ rest) [] → match_first head next [] ≡ true
        none_left (inl (e, skipped, left, f, g)) = absurd (k e)
        none_left (inr (j, name, left, f, m, g)) = cc
    first_iff (name ∷ left) (plain, plains) k =
        let (to, from) = and_iff (match_name head name) (next left) in
        let (there, back) = match_name-Glob head name plain in
        let (later, sooner) = ih left plains in
        let (open_glob, close_glob) = PathGlob-name name left k in
        (
          λ h. close_glob (there (to h).0, later (to h).1),
          λ g. from (back (open_glob g).0, sooner (open_glob g).1),
        )

    cons_iff :
        (seg : List String)
        → All IsPlain seg
        → (b : Bool) → str_eq head "**" ≡ b
        → ((if b then any_tail next seg else match_first head next seg) ≡ true)
          ↔ PathGlob (head ∷ rest) seg
    cons_iff seg plain true e =
        let (to, from) = any_tail_iff next (PathGlob rest) seg plain ih in
        let (open_glob, close_glob) = PathGlob-deep seg ((eq_iff head "**").0 e) in
        (λ h. close_glob (to h), λ g. from (open_glob g))
    cons_iff seg plain false e = first_iff seg plain (λ k. let f = (eq_iff head "**").1 k in cc)

match_segments-PathGlob :
    (pat seg : List String) → All IsPlain seg → (match_segments pat seg ≡ true) ↔ PathGlob pat seg
unfolding match_segments
match_segments-PathGlob [] [] plain = (λ h. refl, λ h. refl)
match_segments-PathGlob [] (s ∷ ss) plain = (λ h. cc, λ h. cc)
match_segments-PathGlob (head ∷ rest) seg plain =
    cons_iff head rest (match_segments rest) (λ l k. match_segments-PathGlob rest l k) seg plain
      (str_eq head "**") refl

-- On a path without a star, `matches` says exactly whether the path is one that the pattern means.
pub matches-PathGlob :
    (pattern path : String)
    → All IsPlain (segments path)
    → (matches pattern path ≡ true) ↔ PathGlob (segments pattern) (segments path)
unfolding matches
matches-PathGlob pattern path plain =
    match_segments-PathGlob (segments pattern) (segments path) plain
