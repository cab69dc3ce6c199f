-- ===== src/Permission/Wording/OneLine.antt =====
-- pkgs/extensions/interceptor-permission/src/rules.rs: `one_line` keeps model-supplied text on its line.
use jan_klod.Common.{
  ℕ, suc, ◌+◌, ◌≤◌, ◌<◌, ◌≡◌, refl, String, Bool, true, false, arith, is_control, leb, Bool-cases,
  inl, inr, ◌&&◌, if◌then◌else◌,
}
use Prim.Native.Char.{Char}
use jan_klod.Permission.Wording.{is_space, spaced, one_line_loop, one_line}

-- `chars().count()`.
abbrev pub char_count : String → ℕ
char_count String.[] = 0
char_count (String.◌∷◌ c s) = suc (char_count s)

abbrev pub AllChars : (Char → Type 0) → String → Type 0
AllChars P String.[] = Unit
AllChars P (String.◌∷◌ c s) = P c × AllChars P s

-- No character is a control character.
abbrev pub IsPlain : String → Type 0
IsPlain = AllChars (λ c. is_control c ≡ false)

spaced-plain : (c : Char) → is_control (spaced c) ≡ false
spaced-plain c = elim (Bool-cases (is_control c)) [
  | inl e ↦ rw e (unfold is_control in refl)
  | inr e ↦ rw e e
]

-- The three ways to go on at a character.
step-OneLine :
    (limit n : ℕ) (c : Char) (skip full : Bool) (skipped rest : String)
    → is_control c ≡ false
    → (full ≡ false → n < limit)
    → IsPlain skipped × (n ≤ limit → n + char_count skipped ≤ limit + 1)
    → IsPlain rest × (n + 1 ≤ limit → n + 1 + char_count rest ≤ limit + 1)
    → IsPlain (if skip then skipped else if full then "…" else String.◌∷◌ c rest)
      × (n ≤ limit
          → n + char_count (if skip then skipped else if full then "…" else String.◌∷◌ c rest)
            ≤ limit + 1)
step-OneLine limit n c true full skipped rest p f h k = h
step-OneLine limit n c false true skipped rest p f h k =
    ((unfold is_control in refl, tt), λ l. omega arith)
step-OneLine limit n c false false skipped rest p f h k =
    let r = f refl in ((p, k.0), λ l. let b = k.1 (omega arith) in omega arith)

one_line_loop-OneLine :
    (limit n : ℕ) (b : Bool) (s : String)
    → IsPlain (one_line_loop limit n b s)
      × (n ≤ limit → n + char_count (one_line_loop limit n b s) ≤ limit + 1)
unfolding one_line_loop
one_line_loop-OneLine limit n b String.[] = (tt, λ l. omega arith)
one_line_loop-OneLine limit n b (String.◌∷◌ c s) =
    step-OneLine limit n (spaced c) (is_space (spaced c) && b) (leb limit n) _ _ (spaced-plain c)
      (λ e. ground arith) (one_line_loop-OneLine limit n true s)
      (one_line_loop-OneLine limit (n + 1) (is_space (spaced c)) s)

-- Text that is put on one line has no control character, and at most one character more than the
-- limit, the ellipsis that marks a cut.
pub one_line-IsPlain :
    (text : String) (limit : ℕ)
    → IsPlain (one_line text limit) × (char_count (one_line text limit) ≤ limit + 1)
unfolding one_line
one_line-IsPlain text limit =
    let (plain, short) = one_line_loop-OneLine limit 0 false text in
    let bound = short (omega arith) in (plain, omega arith)
