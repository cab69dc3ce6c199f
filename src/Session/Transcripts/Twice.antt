-- ===== src/Session/Transcripts/Twice.antt =====
-- pkgs/host/session/src/event_log.rs: migrating the transcripts once more writes nothing.
use jan_klod.Common.{
  ℕ, ◌≡◌, ◌≢◌, ◌⊎◌, inl, inr, refl, sym, subst, ◌∙◌, String, Bool, true, false, not, ◌||◌, List, [],
  ◌∷◌, ◌++◌, map, All, Option, none, some, Bool-cases, Result, ok, err, str_eq, eq_iff, arith,
}
use jan_klod.Json.{Codec, Value, str_field}
use jan_klod.Session.Store.{
  Row, Store, logged, session_rows, session_events, append_event_at, is_nil, next_row,
}
use jan_klod.Session.Store.Rows.{session_rows-concat_other}
use jan_klod.Session.Store.Chain.{append_event_at-rows}
use jan_klod.Session.Entries.{EntryRow, list_namespaces}
use jan_klod.Session.Transcripts.{
  NumberedTurn, has_slash, turns_of, migrate_user, migrate_answer, migrate_value, migrate_turns,
  is_skipped, migrate_session, migrate_all, migrate_transcripts,
}
use jan_klod.Session.Transcripts.Keeps.{migrate_answer_keeps, migrate_turns_keeps}

module _ (codec : Codec) (sha256 : String → String) where
  -- The session has an event.
  abbrev HasEvents : String → Store → Type 0
  HasEvents s store = session_rows store s ≢ []

  HasEvents-appended :
      (t : String) (store : Store) (kind payload : String) (ts : ℕ)
      → HasEvents t (append_event_at sha256 store t kind payload ts).1
  HasEvents-appended t store kind payload ts e =
      never _ (session_rows store t) (sym (append_event_at-rows sha256 store t kind payload ts) ∙ e)
    where
      never : (r : Row) (rs : List Row) → rs ++ r ∷ [] ≡ [] → ⊥
      never r [] h = cc
      never r (x ∷ rs) h = cc

  HasEvents-append :
      (s t : String) (store : Store) (kind payload : String) (ts : ℕ)
      → HasEvents s store
      → HasEvents s (append_event_at sha256 store t kind payload ts).1
  HasEvents-append s t store kind payload ts h = elim (Bool-cases (str_eq t s)) [
    | inl e ↦
        subst (λ u. HasEvents u (append_event_at sha256 store t kind payload ts).1)
          ((eq_iff t s).0 e) (HasEvents-appended t store kind payload ts)
    | inr e ↦ λ k. h (sym (other (λ f. let g = (eq_iff t s).1 f in cc)) ∙ k)
  ]
    where
      other :
          t ≢ s
          → session_rows (append_event_at sha256 store t kind payload ts).1 s ≡ session_rows store s
      other f =
          unfold append_event_at next_row in
          session_rows-concat_other store.events (next_row sha256 store t kind payload ts) s f

  -- A turn writes nothing, whatever the store, or it writes to the log.
  value-cases :
      (t : String) (r : Result Value String) (ts : ℕ)
      → ((store : Store) → migrate_value codec sha256 t r ts store ≡ store)
        ⊎ ((store : Store) → HasEvents t (migrate_value codec sha256 t r ts store))
  unfolding migrate_value
  value-cases t (err e) ts = inl (λ store. refl)
  value-cases t (ok turn) ts = of_fields (str_field turn "user") (str_field turn "answer")
    where
      of_fields :
          (user answer : Option String)
          → ((store : Store)
              → migrate_answer codec sha256 t answer ts (migrate_user codec sha256 t user ts store)
                ≡ store)
            ⊎ ((store : Store)
                → HasEvents t (
                    migrate_answer codec sha256 t answer ts
                      (migrate_user codec sha256 t user ts store)))
      of_fields none none = inl (λ store. unfold migrate_answer migrate_user in refl)
      of_fields none (some a) =
          inr (λ store. unfold migrate_answer migrate_user in HasEvents-appended t store _ _ ts)
      of_fields (some u) answer = inr (λ store.
          migrate_answer_keeps codec sha256 (HasEvents t) t (HasEvents-append t t) answer ts _
            (unfold migrate_user in HasEvents-appended t store _ _ ts))

  turns-cases :
      (t : String) (turns : List NumberedTurn)
      → ((store : Store) → migrate_turns codec sha256 t turns store ≡ store)
        ⊎ ((store : Store) → HasEvents t (migrate_turns codec sha256 t turns store))
  unfolding migrate_turns
  turns-cases t [] = inl (λ store. refl)
  turns-cases t (turn ∷ turns) =
      elim (value-cases t (codec.from_str turn.entry.value) turn.entry.created_at) [
        | inl e ↦ elim (turns-cases t turns) [
          | inl k ↦ inl (λ store. k _ ∙ e store)
          | inr k ↦ inr (λ store. k _)
        ]
        | inr l ↦ inr (λ store.
            migrate_turns_keeps codec sha256 (HasEvents t) t (HasEvents-append t t) turns _
              (l store))
      ]

  module _ (rows : List EntryRow) where
    -- Nothing is left to do for the session.
    abbrev IsDone : String → Store → Type 0
    IsDone t store =
        (has_slash t ≡ true)
        ⊎ (HasEvents t store
            ⊎ ((other : Store) → migrate_turns codec sha256 t (turns_of rows t) other ≡ other))

    IsDone-skipped : (t : String) (store : Store) → is_skipped t store ≡ true → IsDone t store
    IsDone-skipped t store e = elim (Bool-cases (has_slash t)) [
      | inl f ↦ inl f
      | inr f ↦ inr (inl (λ k. taken (has_slash t) (is_nil (session_events store t)) f (empty k) e))
    ]
      where
        empty : session_rows store t ≡ [] → is_nil (session_events store t) ≡ true
        empty k = unfold session_events in rw k refl

        taken : (a b : Bool) → a ≡ false → b ≡ true → (a || not b) ≡ true → ⊥
        taken true b f g h = cc
        taken false true f g h = cc
        taken false false f g h = cc

    skipped-HasEvents : (t : String) (store : Store) → HasEvents t store → is_skipped t store ≡ true
    unfolding session_events session_rows
    skipped-HasEvents t store h = either (has_slash t) _ (nonempty (session_rows store t) h)
      where
        nonempty : (rs : List Row) → rs ≢ [] → is_nil (map logged rs) ≡ false
        nonempty [] k = absurd (k refl)
        nonempty (r ∷ rs) k = refl

        either : (a b : Bool) → b ≡ false → (a || not b) ≡ true
        either a b e = ground arith

    IsDone-stable :
        (t : String) (n : ℕ) (store : Store)
        → IsDone t store
        → (migrate_session codec sha256 rows t (n, store)).1 ≡ store
    unfolding migrate_session
    IsDone-stable t n store (inl slash) = rw slash refl
    IsDone-stable t n store (inr (inl l)) = rw (skipped-HasEvents t store l) refl
    IsDone-stable t n store (inr (inr k)) =
        elim (Bool-cases (is_skipped t store || is_nil (turns_of rows t))) [
          | inl e ↦ rw e refl
          | inr e ↦ rw e (k store)
        ]

    HasEvents-session :
        (s t : String) (n : ℕ) (store : Store)
        → HasEvents s store
        → HasEvents s (migrate_session codec sha256 rows t (n, store)).1
    unfolding migrate_session
    HasEvents-session s t n store h =
        elim (Bool-cases (is_skipped t store || is_nil (turns_of rows t))) [
          | inl e ↦ rw e h
          | inr e ↦ rw e (
              migrate_turns_keeps codec sha256 (HasEvents s) t (HasEvents-append s t)
                (turns_of rows t) store h)
        ]

    IsDone-session :
        (s t : String) (n : ℕ) (store : Store)
        → IsDone s store
        → IsDone s (migrate_session codec sha256 rows t (n, store)).1
    IsDone-session s t n store (inl slash) = inl slash
    IsDone-session s t n store (inr (inl l)) = inr (inl (HasEvents-session s t n store l))
    IsDone-session s t n store (inr (inr k)) = inr (inr k)

    -- What a session is once it had its turn.
    IsDone-own :
        (t : String) (n : ℕ) (store : Store)
        → IsDone t (migrate_session codec sha256 rows t (n, store)).1
    unfolding migrate_session
    IsDone-own t n store = elim (Bool-cases (is_skipped t store)) [
      | inl e ↦ rw e (IsDone-skipped t store e)
      | inr e ↦ elim (turns-cases t (turns_of rows t)) [
        | inl k ↦ inr (inr k)
        | inr l ↦ elim (Bool-cases (is_nil (turns_of rows t))) [
          | inl f ↦ inr (inr (idle (turns_of rows t) f))
          | inr f ↦ rw (e, f) (inr (inl (l store)))
        ]
      ]
    ]
      where
        idle :
            (turns : List NumberedTurn)
            → is_nil turns ≡ true
            → (other : Store) → migrate_turns codec sha256 t turns other ≡ other
        idle [] f other = unfold migrate_turns in refl
        idle (x ∷ xs) f other = cc

    IsDone-all :
        (s : String) (names : List String) (n : ℕ) (store : Store)
        → IsDone s store
        → IsDone s (migrate_all codec sha256 rows names (n, store)).1
    unfolding migrate_all
    IsDone-all s [] n store h = h
    IsDone-all s (t ∷ names) n store h =
        IsDone-all s names (migrate_session codec sha256 rows t (n, store)).0
          (migrate_session codec sha256 rows t (n, store)).1 (IsDone-session s t n store h)

    migrate_all-IsDone :
        (names : List String) (n : ℕ) (store : Store)
        → All (λ t. IsDone t (migrate_all codec sha256 rows names (n, store)).1) names
    unfolding migrate_all
    migrate_all-IsDone [] n store = tt
    migrate_all-IsDone (t ∷ names) n store =
        let (n2, store2) = migrate_session codec sha256 rows t (n, store) in
        (IsDone-all t names n2 store2 (IsDone-own t n store), migrate_all-IsDone names n2 store2)

    stable-All :
        (names : List String) (n : ℕ) (store : Store)
        → All (λ t. IsDone t store) names
        → (migrate_all codec sha256 rows names (n, store)).1 ≡ store
    unfolding migrate_all
    stable-All [] n store h = refl
    stable-All (t ∷ names) n store (h, hs) =
        let (n2, store2) = migrate_session codec sha256 rows t (n, store) in
        stable-All names n2 store2
          (subst (λ st. All (λ u. IsDone u st) names) (sym (IsDone-stable t n store h)) hs)
        ∙ IsDone-stable t n store h

    -- Migrating the transcripts a second time leaves the store as the first time left it.
    pub migrate_transcripts-twice :
        (store : Store)
        → (migrate_transcripts codec sha256 rows (migrate_transcripts codec sha256 rows store).1).1
          ≡ (migrate_transcripts codec sha256 rows store).1
    unfolding migrate_transcripts
    migrate_transcripts-twice store =
        stable-All (list_namespaces rows) 0 _ (migrate_all-IsDone (list_namespaces rows) 0 store)
