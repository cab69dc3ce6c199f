-- ===== src/Session/Store/Fork.antt =====
-- pkgs/host/session/src/store.rs: `fork_events`, and what it does to the chain of the new session.
use jan_klod.Common.{
  retain-append, ℕ, ◌+◌, ◌≤◌, ◌<◌, ◌≡◌, ◌≢◌, refl, sym, ◌∙◌, ap, subst, String, true, List, [], ◌∷◌,
  ◌++◌, map, arith, length, min, leb, retain, str_eq, eq_refl, Bool-cases, inl, inr, ok,
  ok-injective, ok-ne-err, All,
}
use jan_klod.Session.Store.{
  Row, Store, i64_max, logged, of_session, order_by_seq, insert_by_seq, session_rows,
  session_events, is_nil, copied, renumbered, forked_rows, fork_events, broken, verify_rows,
  check_rows, check_digest, check_first, verify_chain,
}
use jan_klod.Session.Store.Rows.{IsIncreasing, order_by_seq-of_IsIncreasing}

-- What a fork keeps of a row.
pub record Content : Type 0 where
  pub ts : ℕ
  pub kind : String
  pub payload : String

abbrev pub content : Row → Content
content r = record { ts = r.ts; kind = r.kind; payload = r.payload }

-- The numbers `n`, `n + 1`, and so on.
abbrev pub CountsFrom : ℕ → List Row → Type 0
CountsFrom n [] = Unit
CountsFrom n (r ∷ rs) = (r.seq ≡ n) × CountsFrom (n + 1) rs

renumbered-CountsFrom :
    (into : String) (n : ℕ) (rs : List Row) → CountsFrom n (renumbered into n rs)
unfolding renumbered
renumbered-CountsFrom into n [] = tt
renumbered-CountsFrom into n (r ∷ rs) = (refl, renumbered-CountsFrom into (n + 1) rs)

map-renumbered :
    (into : String) (n : ℕ) (rs : List Row) → map content (renumbered into n rs) ≡ map content rs
unfolding renumbered
map-renumbered into n [] = refl
map-renumbered into n (r ∷ rs) =
    ap (λ (xs : List Content). content r ∷ xs) (map-renumbered into (n + 1) rs)

CountsFrom-All :
    (m n : ℕ) (rs : List Row) → m < n → CountsFrom n rs → All (λ (x : Row). m < x.seq) rs
CountsFrom-All m n [] h c = tt
CountsFrom-All m n (r ∷ rs) h (e, c) = (omega arith, CountsFrom-All m (n + 1) rs (omega arith) c)

CountsFrom-IsIncreasing : (n : ℕ) (rs : List Row) → CountsFrom n rs → IsIncreasing rs
CountsFrom-IsIncreasing n [] c = tt
CountsFrom-IsIncreasing n (r ∷ rs) (e, c) =
    (CountsFrom-All r.seq (n + 1) rs (omega arith) c, CountsFrom-IsIncreasing (n + 1) rs c)

of_session-renumbered :
    (into : String) (n : ℕ) (rs : List Row)
    → of_session into (renumbered into n rs) ≡ renumbered into n rs
unfolding renumbered
of_session-renumbered into n [] = refl
of_session-renumbered into n (r ∷ rs) =
    rw (eq_refl into)
      (ap (λ (xs : List Row). copied into n r ∷ xs) (of_session-renumbered into (n + 1) rs))

insert_by_seq-ne-nil : (r : Row) (rs : List Row) → insert_by_seq r rs ≢ []
unfolding insert_by_seq
insert_by_seq-ne-nil r [] e = cc
insert_by_seq-ne-nil r (x ∷ xs) e = ground arith

order_by_seq-nil : (rs : List Row) → order_by_seq rs ≡ [] → rs ≡ []
unfolding order_by_seq
order_by_seq-nil [] h = refl
order_by_seq-nil (r ∷ rs) h = absurd (insert_by_seq-ne-nil r (order_by_seq rs) h)

map-nil : {A B : Type 0} (f : A → B) (xs : List A) → is_nil (map f xs) ≡ true → xs ≡ []
map-nil f [] h = refl
map-nil f (x ∷ xs) h = cc

unused-of_session :
    (store : Store) (into : String)
    → is_nil (session_events store into) ≡ true
    → of_session into store.events ≡ []
unfolding session_events session_rows
unused-of_session store into h = order_by_seq-nil _ (map-nil logged _ h)

-- The rows of a session that was unused, once copies for it have been added.
rows-of_copies :
    (rows : List Row) (into : String) (rs : List Row)
    → of_session into rows ≡ []
    → session_rows (record { events = rows ++ renumbered into 1 rs }) into ≡ renumbered into 1 rs
unfolding session_rows
rows-of_copies rows into rs unused =
    rw
      (
        retain-append (λ r. str_eq r.session into) rows (renumbered into 1 rs),
        unused,
        of_session-renumbered into 1 rs,
      )
      (order_by_seq-of_IsIncreasing (renumbered into 1 rs)
        (CountsFrom-IsIncreasing 1 (renumbered into 1 rs) (renumbered-CountsFrom into 1 rs)))

module _ (store store' : Store) (session into : String) (at_seq n : ℕ)
    (forked : fork_events store session at_seq into ≡ ok (n, store')) where
  -- The rows of the source up to `at_seq`.
  abbrev prefix : List Row
  prefix = retain (λ r. leb r.seq (min at_seq i64_max)) (session_rows store session)

  fork_result :
      (n ≡ length (forked_rows store session at_seq into))
      × (session_rows store' into ≡ forked_rows store session at_seq into)
  unfolding fork_events
  fork_result = elim (Bool-cases (is_nil (session_events store into))) [
    | inl unused ↦
        let e = ok-injective (rw unused at forked) in
        (
          ap (λ (x : ℕ × Store). x.0) (sym e),
          ap (λ (x : ℕ × Store). session_rows x.1 into) (sym e)
              ∙ unfold forked_rows in
                rows-of_copies store.events into prefix (unused-of_session store into unused),
        )
    | inr used ↦ absurd (ok-ne-err (sym (rw used at forked)))
  ]

  -- A fork copies into the new session the source's rows up to and including `at_seq`: time, kind
  -- and payload of each, in order, numbered 1, 2, and so on; the result is how many there are.
  pub fork_events-content :
      (map content (session_rows store' into) ≡ map content prefix)
      × CountsFrom 1 (session_rows store' into)
      × (n ≡ length (session_rows store' into))
  unfolding forked_rows
  fork_events-content = (
    ap (map content) fork_result.1 ∙ map-renumbered into 1 prefix,
    rw fork_result.1 (renumbered-CountsFrom into 1 prefix),
    fork_result.0 ∙ ap length (sym fork_result.1),
  )

module _ (sha256 : String → String) where
  verify_copies :
      (into : String) (a b : Row) (rs : List Row)
      → verify_rows sha256 into (renumbered into 1 (a ∷ (b ∷ rs)))
        ≡ ok (broken 2 b.kind "non-first event missing prev_digest")
  unfolding verify_rows renumbered check_first check_rows check_digest
  verify_copies into a b rs = refl

  two_copies :
      (into : String) (rs : List Row)
      → 2 ≤ length (renumbered into 1 rs)
      → (kind : String) × (verify_rows sha256 into (renumbered into 1 rs)
          ≡ ok (broken 2 kind "non-first event missing prev_digest"))
  two_copies into [] h = absurd (unfold renumbered in omega arith)
  two_copies into (a ∷ []) h = absurd (unfold renumbered in omega arith)
  two_copies into (a ∷ (b ∷ rs)) h = (b.kind, verify_copies into a b rs)

  -- A fork that copies two events or more leaves a log that `verify_chain` reports as broken, though
  -- nobody has touched it: the copies are inserted with no digest.
  pub fork_events-breaks_chain :
      (store store' : Store) (session into : String) (at_seq n : ℕ)
      → fork_events store session at_seq into ≡ ok (n, store')
      → 2 ≤ n
      → (kind : String) × (verify_chain sha256 store' into
          ≡ ok (broken 2 kind "non-first event missing prev_digest"))
  unfolding verify_chain forked_rows
  fork_events-breaks_chain store store' session into at_seq n forked h =
      let (e, rows) = fork_result store store' session into at_seq n forked in
      rw rows (two_copies into _ (subst (λ (m : ℕ). 2 ≤ m) e h))
