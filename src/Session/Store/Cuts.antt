-- ===== src/Session/Store/Cuts.antt =====
-- pkgs/host/session/src/store.rs and projection.rs: where a log is cut at one of its user messages.
use jan_klod.Common.{
  All-retain, ℕ, zero, suc, ◌+◌, ◌<◌, ◌≡◌, refl, sym, ◌∙◌, ap, subst, true, false, List, [], ◌∷◌,
  map, arith, length, drop, leb, retain, Bool-cases, inl, inr, All, if◌then◌else◌,
}
use jan_klod.Session.Store.{Row, logged, is_user_message, first_seq}
use jan_klod.Session.Store.Rows.{IsIncreasing}
use jan_klod.Session.Projection.{turn_starts, nth}

-- The rows from the `k`-th user message on, counted from 0.
pub from_turn : ℕ → List Row → List Row
from_turn k [] = []
from_turn zero (r ∷ rs) = if is_user_message r then r ∷ rs else from_turn zero rs
from_turn (suc k) (r ∷ rs) = if is_user_message r then from_turn k rs else from_turn (suc k) rs

-- How many rows stand before it.
pub before_turn : ℕ → List Row → ℕ
before_turn k [] = 0
before_turn zero (r ∷ rs) = if is_user_message r then 0 else suc (before_turn zero rs)
before_turn (suc k) (r ∷ rs) =
    suc (if is_user_message r then before_turn k rs else before_turn (suc k) rs)

abbrev pub users : List Row → List Row
users rows = retain is_user_message rows

pub drop-before_turn :
    (k : ℕ) (rows : List Row)
    → drop (before_turn k rows) (map logged rows) ≡ map logged (from_turn k rows)
unfolding before_turn from_turn
drop-before_turn zero [] = refl
drop-before_turn (suc k) [] = refl
drop-before_turn zero (r ∷ rs) = ground (arith, drop-before_turn zero rs)
drop-before_turn (suc k) (r ∷ rs) =
    ground (arith, drop-before_turn k rs, drop-before_turn (suc k) rs)

pub length-turn_starts :
    (n : ℕ) (rows : List Row) → length (turn_starts n (map logged rows)) ≡ length (users rows)
unfolding turn_starts
length-turn_starts n [] = refl
length-turn_starts n (r ∷ rs) = ground (arith, length-turn_starts (n + 1) rs)

pub nth-turn_starts :
    (n k : ℕ) (rows : List Row)
    → k < length (users rows)
    → nth (turn_starts n (map logged rows)) k ≡ n + before_turn k rows
unfolding turn_starts before_turn
nth-turn_starts n k [] h = absurd (omega arith)
nth-turn_starts n zero (r ∷ rs) h = ground (arith, nth-turn_starts (n + 1) zero rs)
nth-turn_starts n (suc k) (r ∷ rs) h =
    ground (arith, nth-turn_starts (n + 1) k rs, nth-turn_starts (n + 1) (suc k) rs)

first_seq-drop-above :
    (m k : ℕ) (xs : List Row)
    → All (λ (x : Row). m < x.seq) xs
    → k < length xs
    → m < first_seq (drop k xs)
first_seq-drop-above m k [] hs h = absurd (omega arith)
first_seq-drop-above m zero (x ∷ xs) (h, hs) k = h
first_seq-drop-above m (suc k) (x ∷ xs) (h, hs) l = first_seq-drop-above m k xs hs (omega arith)

retain-above :
    (m : ℕ) (xs : List Row)
    → All (λ (x : Row). m < x.seq) xs
    → retain (λ (r : Row). leb m r.seq) xs ≡ xs
retain-above m [] h = refl
retain-above m (x ∷ xs) (h, hs) = ground (arith, retain-above m xs hs)

abbrev pub since : ℕ → List Row → List Row
since m rows = retain (λ (r : Row). leb m r.seq) rows

since-below : (m : ℕ) (r : Row) (rs : List Row) → r.seq < m → since m (r ∷ rs) ≡ since m rs
since-below m r rs h = ground arith

pub since-first :
    (r : Row) (rs : List Row) → All (λ (x : Row). r.seq < x.seq) rs → since r.seq (r ∷ rs) ≡ r ∷ rs
since-first r rs h = ground (arith, retain-above r.seq rs h)

pub skip :
    (k : ℕ) (r : Row) (rs : List Row)
    → All (λ (x : Row). r.seq < x.seq) rs
    → k < length (users rs)
    → since (first_seq (drop k (users rs))) (r ∷ rs) ≡ since (first_seq (drop k (users rs))) rs
skip k r rs a h =
    since-below _ r rs
      (first_seq-drop-above r.seq k (users rs) (All-retain _ is_user_message rs a) h)

below :
    (k : ℕ) (r : Row) (rs : List Row)
    → is_user_message r ≡ true
    → suc k < length (users (r ∷ rs))
    → k < length (users rs)
below k r rs e h = ground arith

-- The rows since the `k`-th of the user messages `us`.
abbrev pub since_nth : ℕ → List Row → List Row → List Row
since_nth k us rows = since (first_seq (drop k us)) rows

pub users-hit : (r : Row) (rs : List Row) → is_user_message r ≡ true → users (r ∷ rs) ≡ r ∷ users rs
users-hit r rs e = ap (λ b. if b then r ∷ users rs else users rs) e

pub users-miss : (r : Row) (rs : List Row) → is_user_message r ≡ false → users (r ∷ rs) ≡ users rs
users-miss r rs e = ap (λ b. if b then r ∷ users rs else users rs) e

pub since_turn :
    (k : ℕ) (rows : List Row)
    → IsIncreasing rows
    → k < length (users rows)
    → since_nth k (users rows) rows ≡ from_turn k rows
since_turn k [] i h = absurd (omega arith)
since_turn zero (r ∷ rs) (a, i) h = elim (Bool-cases (is_user_message r)) [
  | inl e ↦
      ap (λ us. since_nth 0 us (r ∷ rs)) (users-hit r rs e)
      ∙ since-first r rs a
      ∙ sym (unfold from_turn in ap (λ b. if b then r ∷ rs else from_turn 0 rs) e)
  | inr e ↦
      ap (λ us. since_nth 0 us (r ∷ rs)) (users-miss r rs e)
      ∙ skip 0 r rs a (subst (λ us. 0 < length us) (users-miss r rs e) h)
      ∙ since_turn 0 rs i (subst (λ us. 0 < length us) (users-miss r rs e) h)
      ∙ sym (unfold from_turn in ap (λ b. if b then r ∷ rs else from_turn 0 rs) e)
]
since_turn (suc k) (r ∷ rs) (a, i) h = elim (Bool-cases (is_user_message r)) [
  | inl e ↦
      ap (λ us. since_nth (suc k) us (r ∷ rs)) (users-hit r rs e)
      ∙ skip k r rs a (below k r rs e h)
      ∙ since_turn k rs i (below k r rs e h)
      ∙ sym (unfold from_turn in ap (λ b. if b then from_turn k rs else from_turn (suc k) rs) e)
  | inr e ↦
      ap (λ us. since_nth (suc k) us (r ∷ rs)) (users-miss r rs e)
      ∙ skip (suc k) r rs a (subst (λ us. suc k < length us) (users-miss r rs e) h)
      ∙ since_turn (suc k) rs i (subst (λ us. suc k < length us) (users-miss r rs e) h)
      ∙ sym (unfold from_turn in ap (λ b. if b then from_turn k rs else from_turn (suc k) rs) e)
]
