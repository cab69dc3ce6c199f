-- ===== src/Session/Transcripts/Keeps.antt =====
-- pkgs/host/session/src/event_log.rs: what `migrate_transcripts` does to the log of a session.
use jan_klod.Common.{
  ℕ, ◌≡◌, ◌≢◌, ◌⊎◌, inl, inr, refl, sym, subst, ap, arith, ◌∙◌, String, Bool, true, false, not,
  ◌||◌, List, [], ◌∷◌, map, Option, none, some, Bool-cases, Result, ok, err, str_eq, eq_iff,
}
use jan_klod.Json.{Codec, Value, str_field}
use jan_klod.Session.Store.{
  Row, Store, logged, session_rows, session_events, append_event_at, is_nil, intact, verify_chain,
  verify_rows, next_row,
}
use jan_klod.Session.Store.Chain.{append_event_at-verify_chain}
use jan_klod.Session.Store.Rows.{session_rows-concat_other}
use jan_klod.Session.Entries.{EntryRow, list_namespaces}
use jan_klod.Session.Transcripts.{
  NumberedTurn, has_slash, turns_of, migrate_user, migrate_answer, migrate_value, migrate_turns,
  is_skipped, migrate_session, migrate_all, migrate_transcripts,
}

nil_logged : (rs : List Row) → is_nil (map logged rs) ≡ true → rs ≡ []
nil_logged [] h = refl
nil_logged (r ∷ rs) h = cc

-- A session that is not skipped has a plain name and no event.
pub not_skipped :
    (t : String) (store : Store)
    → is_skipped t store ≡ false
    → (has_slash t ≡ false) × (session_rows store t ≡ [])
not_skipped t store e =
    let (plain, empty) = both (has_slash t) (is_nil (session_events store t)) e in
    (plain, nil_logged (session_rows store t) (unfold session_events in empty))
  where
    both : (a b : Bool) → (a || not b) ≡ false → (a ≡ false) × (b ≡ true)
    both a b e = ground arith

module _ (codec : Codec) (sha256 : String → String) where
  -- Whatever each append to a log keeps, the migration of its turns keeps.
  module _ (P : Store → Type 0) (t : String)
      (appends : (store : Store) (kind payload : String) (ts : ℕ)
        → P store
        → P (append_event_at sha256 store t kind payload ts).1) where
    migrate_user_keeps :
        (o : Option String) (ts : ℕ) (store : Store)
        → P store
        → P (migrate_user codec sha256 t o ts store)
    unfolding migrate_user
    migrate_user_keeps none ts store h = h
    migrate_user_keeps (some user) ts store h = appends store _ _ ts h

    pub migrate_answer_keeps :
        (o : Option String) (ts : ℕ) (store : Store)
        → P store
        → P (migrate_answer codec sha256 t o ts store)
    unfolding migrate_answer
    migrate_answer_keeps none ts store h = h
    migrate_answer_keeps (some answer) ts store h = appends store _ _ ts h

    migrate_value_keeps :
        (r : Result Value String) (ts : ℕ) (store : Store)
        → P store
        → P (migrate_value codec sha256 t r ts store)
    unfolding migrate_value
    migrate_value_keeps (err e) ts store h = h
    migrate_value_keeps (ok turn) ts store h =
        migrate_answer_keeps (str_field turn "answer") ts _
          (migrate_user_keeps (str_field turn "user") ts store h)

    pub migrate_turns_keeps :
        (turns : List NumberedTurn) (store : Store)
        → P store
        → P (migrate_turns codec sha256 t turns store)
    unfolding migrate_turns
    migrate_turns_keeps [] store h = h
    migrate_turns_keeps (turn ∷ turns) store h =
        migrate_turns_keeps turns _
          (migrate_value_keeps (codec.from_str turn.entry.value) turn.entry.created_at store h)

  pub migrate_turns-other :
      (s t : String) (turns : List NumberedTurn) (store : Store)
      → t ≢ s
      → session_rows (migrate_turns codec sha256 t turns store) s ≡ session_rows store s
  migrate_turns-other s t turns store h =
      migrate_turns_keeps (λ st. session_rows st s ≡ session_rows store s) t
        (λ st kind payload ts e.
          unfold append_event_at next_row in
          (session_rows-concat_other st.events (next_row sha256 st t kind payload ts) s h ∙ e))
        turns store refl

  -- The log of a session as the migration leaves it: as it was, or where it was empty, a chain.
  abbrev pub Migrated : String → Store → Store → Type 0
  Migrated s before after =
      (session_rows after s ≡ session_rows before s)
      ⊎ ((has_slash s ≡ false)
          × (session_rows before s ≡ [])
          × (verify_chain sha256 after s ≡ ok intact))

  module _ (s : String) (before : Store) where
    Migrated-turns :
        (turns : List NumberedTurn) (store : Store)
        → has_slash s ≡ false
        → session_rows store s ≡ []
        → Migrated s before store
        → Migrated s before (migrate_turns codec sha256 s turns store)
    Migrated-turns turns store plain e h = settle _ h (
        migrate_turns_keeps
          (λ st. (session_rows st s ≡ []) ⊎ (verify_chain sha256 st s ≡ ok intact)) s
          (λ st kind payload ts k. inr (append_event_at-verify_chain sha256 st s kind payload ts k))
          turns store (inl e))
      where
        settle :
            (after : Store)
            → Migrated s before store
            → (session_rows after s ≡ []) ⊎ (verify_chain sha256 after s ≡ ok intact)
            → Migrated s before after
        settle after (inl same) (inl k) = inl (k ∙ sym e ∙ same)
        settle after (inl same) (inr k) = inr (plain, sym same ∙ e, k)
        settle after (inr (_, was, _)) (inl k) = inl (k ∙ sym was)
        settle after (inr (_, was, _)) (inr k) = inr (plain, was, k)

    module _ (rows : List EntryRow) where
      Migrated-other :
          (t : String) (store : Store)
          → t ≢ s
          → Migrated s before store
          → Migrated s before (migrate_turns codec sha256 t (turns_of rows t) store)
      Migrated-other t store h (inl same) = inl (migrate_turns-other s t _ store h ∙ same)
      Migrated-other t store h (inr (plain, was, k)) = inr (
        plain,
        was,
        unfold verify_chain in
            (ap (verify_rows sha256 s) (migrate_turns-other s t (turns_of rows t) store h)
              ∙ unfold verify_chain in k),
      )

      Migrated-taken :
          (t : String) (store : Store)
          → is_skipped t store ≡ false
          → Migrated s before store
          → Migrated s before (migrate_turns codec sha256 t (turns_of rows t) store)
      Migrated-taken t store e h = elim (Bool-cases (str_eq t s)) [
        | inl same ↦
            subst (λ u. Migrated s before (migrate_turns codec sha256 u (turns_of rows u) store))
              (sym ((eq_iff t s).0 same))
              (Migrated-turns (turns_of rows s) store
                (subst (λ u. has_slash u ≡ false) ((eq_iff t s).0 same) (not_skipped t store e).0)
                (subst (λ u. session_rows store u ≡ []) ((eq_iff t s).0 same)
                  (not_skipped t store e).1)
                h)
        | inr other ↦ Migrated-other t store (λ k. let f = (eq_iff t s).1 k in cc) h
      ]

      Migrated-session :
          (t : String) (n : ℕ) (store : Store)
          → Migrated s before store
          → Migrated s before (migrate_session codec sha256 rows t (n, store)).1
      unfolding migrate_session
      Migrated-session t n store h = elim (Bool-cases (is_skipped t store)) [
        | inl e ↦ rw e h
        | inr e ↦ elim (Bool-cases (is_nil (turns_of rows t))) [
          | inl f ↦ rw (e, f) h
          | inr f ↦ rw (e, f) (Migrated-taken t store e h)
        ]
      ]

      pub Migrated-all :
          (names : List String) (n : ℕ) (store : Store)
          → Migrated s before store
          → Migrated s before (migrate_all codec sha256 rows names (n, store)).1
      unfolding migrate_all
      Migrated-all [] n store h = h
      Migrated-all (t ∷ names) n store h =
          Migrated-all names (migrate_session codec sha256 rows t (n, store)).0
            (migrate_session codec sha256 rows t (n, store)).1 (Migrated-session t n store h)

      -- The migration touches the log of a session only if the log is empty and the session's name is
      -- plain, and then the log that it leaves is empty or a chain that `verify_chain` finds intact.
      pub migrate_transcripts-Migrated :
          Migrated s before (migrate_transcripts codec sha256 rows before).1
      unfolding migrate_transcripts
      migrate_transcripts-Migrated = Migrated-all (list_namespaces rows) 0 before (inl refl)
