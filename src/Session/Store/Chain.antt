-- ===== src/Session/Store/Chain.antt =====
-- pkgs/host/session/src/store.rs: the digest chain of a session, and what appends do to it.
use jan_klod.Common.{
  ℕ, ◌≡◌, ◌≢◌, ◌↔◌, ◌⊎◌, refl, ap, String, List, [], ◌∷◌, ◌++◌, map, map-append, Option, none, some,
  arith, eq_iff, inl, inr, Result, ok,
}
use jan_klod.Session.Store.{
  Row, Store, logged, of_session, session_rows, session_events, ChainStatus, intact, VerifyError,
  compute_event_digest, last_digest, next_row, append_event_at, check_digest, check_rows,
  check_first, verify_rows, verify_chain,
}
use jan_klod.Session.Store.Rows.{
  Below, max_seq-Below, session_rows-concat, session_rows-concat_other,
}

module _ (sha256 : String → String) where
  -- The chain as it is meant: each row holds the digest of the one before it.
  abbrev pub Follows : Row → List Row → Type 0
  Follows prev [] = Unit
  Follows prev (r ∷ rs) = (r.prev_digest ≡ some (compute_event_digest sha256 prev)) × Follows r rs

  abbrev pub Linked : List Row → Type 0
  Linked [] = Unit
  Linked (r ∷ rs) = (r.prev_digest ≡ none) × Follows r rs

  check_digest_iff :
      (prev r : Row) (rest : ChainStatus) (o : Option String)
      → (check_digest sha256 prev r rest o ≡ intact)
        ↔ ((o ≡ some (compute_event_digest sha256 prev)) × (rest ≡ intact))
  unfolding check_digest
  check_digest_iff prev r rest none = ground arith
  check_digest_iff prev r rest (some stored) =
      ground (arith, eq_iff stored (compute_event_digest sha256 prev))

  check_rows-Follows :
      (prev : Row) (rs : List Row) → (check_rows sha256 prev rs ≡ intact) ↔ Follows prev rs
  unfolding check_rows
  check_rows-Follows prev [] = (λ h. tt, λ h. refl)
  check_rows-Follows prev (r ∷ rs) =
      let (to, from) = check_digest_iff prev r (check_rows sha256 r rs) r.prev_digest in
      let (ih, hi) = check_rows-Follows r rs in
      (λ h. ((to h).0, ih (to h).1), λ h. from (h.0, hi h.1))

  check_first_iff :
      (r : Row) (rest : ChainStatus) (o : Option String)
      → (check_first sha256 r rest o ≡ intact) ↔ ((o ≡ none) × (rest ≡ intact))
  unfolding check_first
  check_first_iff r rest none = ground arith
  check_first_iff r rest (some d) = ground arith

  ok-injective :
      (s : ChainStatus) → ◌≡◌ {A = Result ChainStatus VerifyError} (ok s) (ok intact) → s ≡ intact
  ok-injective s h = cc

  verify_rows_iff :
      (session : String) (rs : List Row)
      → (verify_rows sha256 session rs ≡ ok intact) ↔ ((rs ≢ []) × Linked rs)
  unfolding verify_rows
  verify_rows_iff session [] = (λ h. cc, λ h. absurd (h.0 refl))
  verify_rows_iff session (r ∷ rs) =
      let (to, from) = check_first_iff r (check_rows sha256 r rs) r.prev_digest in
      let (ih, hi) = check_rows-Follows r rs in
      (
        λ h. (λ e. cc, ((to (ok-injective _ h)).0, ih (to (ok-injective _ h)).1)),
        λ h. ap ok (from (h.1.0, hi h.1.1)),
      )

  -- `verify_chain` reports a session's log as intact exactly when the log has a row, its first row
  -- holds no digest, and every later row holds the digest of the row before it.
  pub verify_chain-Linked :
      (store : Store) (session : String)
      → (verify_chain sha256 store session ≡ ok intact)
        ↔ ((session_rows store session ≢ []) × Linked (session_rows store session))
  unfolding verify_chain
  verify_chain-Linked store session = verify_rows_iff session (session_rows store session)

  Follows-concat :
      (prev : Row) (rs : List Row) (m : Row)
      → Follows prev rs
      → m.prev_digest ≡ last_digest sha256 (prev ∷ rs)
      → Follows prev (rs ++ m ∷ [])
  unfolding last_digest
  Follows-concat prev [] m h e = (e, tt)
  Follows-concat prev (r ∷ rs) m (h, hs) e = (h, Follows-concat r rs m hs e)

  Linked-concat :
      (rs : List Row) (m : Row)
      → Linked rs
      → m.prev_digest ≡ last_digest sha256 rs
      → Linked (rs ++ m ∷ [])
  Linked-concat [] m h e = (unfold last_digest in e, tt)
  Linked-concat (r ∷ rs) m (h, hs) e = (h, Follows-concat r rs m hs e)

  concat-ne-nil : (rs : List Row) (m : Row) → rs ++ m ∷ [] ≢ []
  concat-ne-nil [] m e = cc
  concat-ne-nil (r ∷ rs) m e = cc

  module _ (store : Store) (session kind payload : String) (ts : ℕ) where
    abbrev appended : Store
    appended = (append_event_at sha256 store session kind payload ts).1

    pub append_event_at-rows :
        session_rows appended session
        ≡ session_rows store session ++ next_row sha256 store session kind payload ts ∷ []
    unfolding append_event_at next_row
    append_event_at-rows =
        session_rows-concat store.events (next_row sha256 store session kind payload ts)
          (max_seq-Below (of_session session store.events))

    -- An append adds one event to its session, as the last in the log's order and above every number
    -- in use there, and leaves every other session as it is. Kind and payload are stored as given.
    pub append_event_at-session_events :
        (other : String)
        → session ≢ other
        → (session_events appended session
            ≡ session_events store session
              ++ logged (next_row sha256 store session kind payload ts) ∷ [])
          × Below
              (next_row sha256 store session kind payload ts).seq
              (of_session session store.events)
          × (session_events appended other ≡ session_events store other)
    unfolding session_events
    append_event_at-session_events other h = (
      rw append_event_at-rows (
          map-append logged (session_rows store session)
            (next_row sha256 store session kind payload ts ∷ [])),
      unfold next_row in max_seq-Below (of_session session store.events),
      ap (map logged) (
          unfold append_event_at next_row in
          session_rows-concat_other store.events (next_row sha256 store session kind payload ts)
            other h),
    )

    -- Appending keeps a chain intact: after the first event of a session, and after an event on top
    -- of an intact log, `verify_chain` reports the session's log as intact.
    pub append_event_at-verify_chain :
        (session_rows store session ≡ []) ⊎ (verify_chain sha256 store session ≡ ok intact)
        → verify_chain sha256 appended session ≡ ok intact
    append_event_at-verify_chain h = (verify_chain-Linked appended session).1 (
        rw append_event_at-rows
          (concat-ne-nil _ _, Linked-concat _ _ (linked h) (unfold next_row in refl)))
      where
        linked :
            (session_rows store session ≡ []) ⊎ (verify_chain sha256 store session ≡ ok intact)
            → Linked (session_rows store session)
        linked (inl e) = rw e tt
        linked (inr e) = ((verify_chain-Linked store session).0 e).1
