-- ===== src/Session/Store/Recent.antt =====
-- pkgs/host/session/src/store.rs and projection.rs: the tail of a log, by SQL and by slicing.
use jan_klod.Common.{
  ℕ, zero, suc, ◌-◌, ◌≤◌, ◌<◌, ◌≡◌, ◌≢◌, ◌⊎◌, refl, sym, ◌∙◌, ap, String, true, false, List, [],
  ◌∷◌, map, arith, length, leb, ◌==◌, Bool-cases, inl, inr,
}
use jan_klod.Session.Store.{
  Row, Store, LoggedEvent, logged, is_user_message, session_rows, session_events, recent_rows,
  recent_turns,
}
use jan_klod.Session.Store.Rows.{IsIncreasing}
use jan_klod.Session.Projection.{turn_starts, nth, last_turns}
use jan_klod.Session.Store.Cuts.{
  from_turn, before_turn, users, drop-before_turn, length-turn_starts, nth-turn_starts, since-first,
  since_nth, users-hit, since_turn,
}

nth-from_zero :
    (k : ℕ) (rows : List Row)
    → k < length (users rows)
    → nth (turn_starts 0 (map logged rows)) k ≡ before_turn k rows
nth-from_zero k rows h = nth-turn_starts 0 k rows h ∙ omega arith

-- The first row is a user message.
abbrev pub OpensWithUser : List Row → Type 0
OpensWithUser [] = Unit
OpensWithUser (r ∷ rs) = is_user_message r ≡ true

since_first_user :
    (rows : List Row)
    → IsIncreasing rows
    → OpensWithUser rows
    → since_nth 0 (users rows) rows ≡ rows
since_first_user [] i o = refl
since_first_user (r ∷ rs) (a, i) o =
    ap (λ us. since_nth 0 us (r ∷ rs)) (users-hit r rs o) ∙ since-first r rs a

-- What each of the two does, with the rows of the session.
recent_turns-rows :
    (store : Store) (session : String) (turns : ℕ)
    → 0 < turns
    → recent_turns store session turns
      ≡ map logged (
          since_nth
            (length (users (session_rows store session)) - turns)
            (users (session_rows store session))
            (session_rows store session))
unfolding recent_turns recent_rows
recent_turns-rows store session turns h = rw (==_ne turns h) refl
  where
    ==_ne : (n : ℕ) → 0 < n → (n == 0) ≡ false
    ==_ne n h = ground arith

last_turns-all :
    (rows : List Row) (turns : ℕ)
    → 0 < turns
    → length (users rows) ≤ turns
    → last_turns (map logged rows) turns ≡ map logged rows
unfolding last_turns
last_turns-all rows turns h k = rw (length-turn_starts 0 rows) (ground arith)

last_turns-cut :
    (rows : List Row) (turns : ℕ)
    → 0 < turns
    → turns < length (users rows)
    → last_turns (map logged rows) turns ≡ map logged (from_turn (length (users rows) - turns) rows)
unfolding last_turns
last_turns-cut rows turns h k =
    rw
      (
        length-turn_starts 0 rows,
        nth-from_zero (length (users rows) - turns) rows (omega arith),
        drop-before_turn (length (users rows) - turns) rows,
      )
      (ground arith)

last_turns-none : (rows : List LoggedEvent) → last_turns rows 0 ≡ []
unfolding last_turns
last_turns-none rows = refl

recent_turns-none : (store : Store) (session : String) → recent_turns store session 0 ≡ []
unfolding recent_turns
recent_turns-none store session = refl

cut-zero : (m n : ℕ) → m ≤ n → m - n ≡ 0
cut-zero m n h = omega arith

le-or-lt : (m n : ℕ) → (m ≤ n) ⊎ (n < m)
le-or-lt m n = elim (Bool-cases (leb m n)) [
  | inl e ↦ inl (ground arith)
  | inr e ↦ inr (ground arith)
]

tail_of_rows :
    (rows : List Row) (turns : ℕ)
    → 0 < turns
    → IsIncreasing rows
    → OpensWithUser rows
    → map logged (since_nth (length (users rows) - turns) (users rows) rows)
      ≡ last_turns (map logged rows) turns
tail_of_rows rows turns p i o = elim (le-or-lt (length (users rows)) turns) [
  | inl h ↦
      ap (λ k. map logged (since_nth k (users rows) rows)) (cut-zero _ turns h)
      ∙ ap (map logged) (since_first_user rows i o)
      ∙ sym (last_turns-all rows turns p h)
  | inr h ↦
      ap (map logged) (since_turn (length (users rows) - turns) rows i (omega arith))
      ∙ sym (last_turns-cut rows turns p h)
]

-- The log that `recent_turns` is to be cut from, and its tail.
abbrev Loses : ℕ → List Row → Type 0
Loses turns rows =
    (last_turns (map logged rows) turns ≡ map logged rows)
    × (map logged (since_nth (length (users rows) - turns) (users rows) rows)
        ≢ last_turns (map logged rows) turns)

-- Where the rows of a session are in the order of `seq` and the first of them is a user message, the
-- SQL of `recent_turns` selects the same events as `projection::last_turns` cuts off the whole log,
-- for every number of turns, none and too many included.
pub recent_turns-last_turns :
    (store : Store) (session : String) (turns : ℕ)
    → IsIncreasing (session_rows store session)
    → OpensWithUser (session_rows store session)
    → recent_turns store session turns ≡ last_turns (session_events store session) turns
unfolding session_events
recent_turns-last_turns store session zero i o =
    recent_turns-none store session ∙ sym (last_turns-none (session_events store session))
recent_turns-last_turns store session (suc n) i o =
    recent_turns-rows store session (suc n) (omega arith)
    ∙ tail_of_rows (session_rows store session) (suc n) (omega arith) i o
