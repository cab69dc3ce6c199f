-- ===== src/Session/Store/Rows.antt =====
-- pkgs/host/session/src/store.rs: the rows of a session in the order of `seq`.
use jan_klod.Common.{
  ℕ, ◌+◌, ◌≤◌, ◌<◌, ◌≡◌, refl, ap, String, false, List, [], ◌∷◌, ◌++◌, arith, retain-append, All,
  str_eq, eq_iff, eq_refl, append-nil, Bool-cases, inl, inr, ◌≢◌,
}
use jan_klod.Session.Store.{Row, insert_by_seq, order_by_seq, of_session, max_seq, session_rows}

-- Every row of a list is below `n`.
abbrev pub Below : ℕ → List Row → Type 0
Below n = All (λ (r : Row). r.seq < n)

-- The rows stand in the order of `seq`, with no two alike.
abbrev pub IsIncreasing : List Row → Type 0
IsIncreasing [] = Unit
IsIncreasing (r ∷ rs) = All (λ (x : Row). r.seq < x.seq) rs × IsIncreasing rs

insert_by_seq-concat :
    (r m : Row) (xs : List Row)
    → r.seq < m.seq
    → insert_by_seq r (xs ++ m ∷ []) ≡ insert_by_seq r xs ++ m ∷ []
unfolding insert_by_seq
insert_by_seq-concat r m [] h = ground arith
insert_by_seq-concat r m (x ∷ xs) h = ground (arith, insert_by_seq-concat r m xs)

pub order_by_seq-concat :
    (xs : List Row) (m : Row)
    → Below m.seq xs
    → order_by_seq (xs ++ m ∷ []) ≡ order_by_seq xs ++ m ∷ []
unfolding order_by_seq
order_by_seq-concat [] m h = unfold insert_by_seq in refl
order_by_seq-concat (x ∷ xs) m (h, hs) =
    rw (order_by_seq-concat xs m hs) (insert_by_seq-concat x m (order_by_seq xs) h)

-- A list that is in order already is left as it is.
pub order_by_seq-of_IsIncreasing : (xs : List Row) → IsIncreasing xs → order_by_seq xs ≡ xs
unfolding order_by_seq
order_by_seq-of_IsIncreasing [] h = refl
order_by_seq-of_IsIncreasing (x ∷ xs) (h, hs) =
    rw (order_by_seq-of_IsIncreasing xs hs) (first x xs h)
  where
    first :
        (x : Row) (xs : List Row)
        → All (λ (y : Row). x.seq < y.seq) xs
        → insert_by_seq x xs ≡ x ∷ xs
    first x [] h = unfold insert_by_seq in refl
    first x (y ∷ ys) (h, hs) = unfold insert_by_seq in ground arith

pub Below-mono : (m n : ℕ) (xs : List Row) → m ≤ n → Below m xs → Below n xs
Below-mono m n [] h k = tt
Below-mono m n (x ∷ xs) h (k, ks) = (omega arith, Below-mono m n xs h ks)

pub max_seq-Below : (xs : List Row) → Below (max_seq xs + 1) xs
unfolding max_seq
max_seq-Below [] = tt
max_seq-Below (x ∷ xs) = (omega arith, Below-mono _ _ xs (omega arith) (max_seq-Below xs))

pub str_eq-ne : (s t : String) → s ≢ t → str_eq s t ≡ false
str_eq-ne s t h = elim (Bool-cases (str_eq s t)) [
  | inl e ↦ absurd (h ((eq_iff s t).0 e))
  | inr e ↦ e
]

-- A row that is added last, above all others of its session, is last of its session.
pub session_rows-concat :
    (rows : List Row) (m : Row)
    → Below m.seq (of_session m.session rows)
    → session_rows (record { events = rows ++ m ∷ [] }) m.session
      ≡ session_rows (record { events = rows }) m.session ++ m ∷ []
unfolding session_rows
session_rows-concat rows m h =
    rw (retain-append (λ r. str_eq r.session m.session) rows (m ∷ []), eq_refl m.session)
      (order_by_seq-concat (of_session m.session rows) m h)

pub session_rows-concat_other :
    (rows : List Row) (m : Row) (other : String)
    → m.session ≢ other
    → session_rows (record { events = rows ++ m ∷ [] }) other
      ≡ session_rows (record { events = rows }) other
unfolding session_rows
session_rows-concat_other rows m other h =
    rw (retain-append (λ r. str_eq r.session other) rows (m ∷ []), str_eq-ne m.session other h)
      (ap order_by_seq (append-nil (of_session other rows)))
