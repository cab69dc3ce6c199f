-- ===== src/Agent/Appends.antt =====
-- pkgs/host/agent/src/lib.rs: all that a turn does to the store is to append to its session's log.
use jan_klod.Common.{
  ℕ, ◌≡◌, ◌≢◌, ◌⊎◌, refl, sym, ap, ◌∙◌, String, Bool, List, [], ◌∷◌, ◌++◌, map, map-append,
  append_assoc, append-nil, Option, none, some, All, Bool-cases, inl, inr, ok,
}
use jan_klod.Turn.{ToolCall}
use jan_klod.Intercept.Types.{ToolInvoker}
use jan_klod.Conductor.Effects.{Parts, Limits}
use jan_klod.Conductor.Turns.{RunResult}
use jan_klod.Conductor.Clearance.{Keeps}
use jan_klod.Conductor.Clearance.Turn.{run_turn-IsCleared}
use jan_klod.Session.Store.{
  Store, LoggedEvent, session_rows, session_events, append_event_at, verify_chain, intact, next_row,
  logged,
}
use jan_klod.Session.Store.Chain.{
  append_event_at-rows, append_event_at-session_events, append_event_at-verify_chain,
}
use jan_klod.Session.Persist.{
  Logged, append_event, append_encoded, log_user_message, persisting_sink, persisting_driver,
  log_follow_up,
}
use jan_klod.Agent.{logged_parts, run_and_persist, unwarned, history_of}

All-map :
    {A B : Type 0} (Q : B → Type 0) (f : A → B) (xs : List A)
    → ((x : A) → Q (f x))
    → All Q (map f xs)
All-map Q f [] h = tt
All-map Q f (x ∷ xs) h = (h x, All-map Q f xs h)

-- `P` outlasts every append to the log of `session`.
abbrev pub OutlastsAppends : (String → String) → String → (Store → Type 0) → Type 0
OutlastsAppends sha256 session P =
    (store : Store) (kind payload : String) (ts : ℕ)
    → P store
    → P (append_event_at sha256 store session kind payload ts).1

-- The tools do nothing to the store but append to the log of `session`, as the driver that they are
-- handed does.
pub record OnlyAppends {W : Type 0} (sha256 : String → String) (now : W → ℕ) (p : Parts W)
    (tools : ToolInvoker (Logged W)) (session : String) : Type 1 where
  pub binding :
      (P : Store → Type 0)
      → OutlastsAppends sha256 session P
      → (name : String) (s : Logged W) → P s.store
      → P (tools.bind_session name s).store
  pub invoking :
      (P : Store → Type 0)
      → OutlastsAppends sha256 session P
      → (call : ToolCall) (s : Logged W) → P s.store
      → P
          (tools.invoke_asking call
            (persisting_driver p.codec sha256 now session p.driver)
            s).1.store

module _ {W : Type 0} (sha256 : String → String) (now : W → ℕ) (p : Parts W)
    (tools : ToolInvoker (Logged W)) (session : String) (P : Store → Type 0)
    (appends : OutlastsAppends sha256 session P) where
  pub append_encoded_keeps :
      (warned : Bool) (kind payload : String) (s : Logged W)
      → P s.store
      → P (append_encoded p.codec sha256 now session warned kind payload s).1.store
  unfolding append_encoded append_event
  append_encoded_keeps warned kind payload s h = elim (Bool-cases s.poisoned) [
    | inl e ↦ elim (Bool-cases warned) [ inl f ↦ rw (e, f) h | inr f ↦ rw (e, f) h ]
    | inr e ↦ rw e (appends s.store kind payload (now s.inner) h)
  ]

  log_follow_up_keeps :
      (r : Option String × Logged W)
      → P r.1.store
      → P (log_follow_up p.codec sha256 now session r).1.store
  log_follow_up_keeps (none, s) h = h
  log_follow_up_keeps (some message, s) h = append_encoded_keeps _ _ _ s h

  logged_parts-Keeps :
      OnlyAppends sha256 now p tools session
      → Keeps (λ (s : Logged W). P s.store) (logged_parts sha256 now p tools session)
  unfolding logged_parts persisting_sink persisting_driver
  logged_parts-Keeps only = record {
    intercepts = All-map _ _ p.interceptors (λ i x s h. h);
    completes = All-map _ _ p.providers (λ c r s h. h);
    asking = λ q s h. append_encoded_keeps _ _ _ _ (append_encoded_keeps _ _ _ s h);
    following = λ s h. log_follow_up_keeps _ h;
    emitting = λ e s h. append_encoded_keeps _ _ _ s h;
    binding = only.binding P appends;
    invoking = λ c s k h. only.invoking P appends c s h;
  }

  log_user_message_keeps :
      (text : String) (s : Logged W)
      → P s.store
      → P (log_user_message p.codec sha256 now session text s).store
  unfolding log_user_message
  log_user_message_keeps text s h = append_encoded_keeps _ _ _ s h

  run_and_persist_keeps :
      (fuel : ℕ) (limits : Limits) (message : String) (principal : Option String) (s s' : Logged W)
      (r : RunResult)
      → OnlyAppends sha256 now p tools session
      → run_and_persist sha256 now p tools session fuel limits message principal s ≡ some (r, s')
      → P s.store
      → P s'.store
  unfolding run_and_persist
  run_and_persist_keeps fuel limits message principal s s' r only e h =
      run_turn-IsCleared (λ (u : Logged W). P u.store) (logged_parts sha256 now p tools session)
        fuel limits session message (history_of p.codec session s) principal _
        (unwarned sha256 now p tools session s) r s' (logged_parts-Keeps only)
        log_user_message_keeps h e

-- The log of `session` has no row, or `verify_chain` finds it intact.
abbrev pub IsSound : (String → String) → String → Store → Type 0
IsSound sha256 session store =
    (session_rows store session ≡ []) ⊎ (verify_chain sha256 store session ≡ ok intact)

-- `later` has the log of `earlier` with events added at its end, and the other logs as they were.
abbrev pub Grows : String → Store → Store → Type 0
Grows session earlier later =
    ((added : List LoggedEvent) × (session_events later session
        ≡ session_events earlier session ++ added))
    × ((other : String)
        → session ≢ other
        → session_events later other ≡ session_events earlier other)

Grows-append :
    (sha256 : String → String) (session : String) (earlier : Store)
    → OutlastsAppends sha256 session (Grows session earlier)
Grows-append sha256 session earlier store kind payload ts ((added, e), others) = (
  (
    added ++ row ∷ [],
    appended
        ∙ ap (λ (es : List LoggedEvent). es ++ row ∷ []) e
        ∙ append_assoc (session_events earlier session) added (row ∷ []),
  ),
  λ other h.
      (append_event_at-session_events sha256 store session kind payload ts other h).2
      ∙ others other h,
)
  where
    row : LoggedEvent
    row = logged (next_row sha256 store session kind payload ts)

    appended :
        session_events (append_event_at sha256 store session kind payload ts).1 session
        ≡ session_events store session ++ row ∷ []
    appended =
        unfold session_events in
        ap (map logged) (append_event_at-rows sha256 store session kind payload ts)
        ∙ map-append logged (session_rows store session)
            (next_row sha256 store session kind payload ts ∷ [])

module _ {W : Type 0} (sha256 : String → String) (now : W → ℕ) (p : Parts W)
    (tools : ToolInvoker (Logged W)) (session : String)
    (only : OnlyAppends sha256 now p tools session) (fuel : ℕ) (limits : Limits) (message : String)
    (principal : Option String) (s s' : Logged W) (r : RunResult)
    (ran : run_and_persist sha256 now p tools session fuel limits message principal s
      ≡ some (r, s')) where
  -- A turn that comes back leaves the digest chain of its session's log intact, if the log was empty
  -- or intact before and the tools do nothing to the store but append to that log.
  pub run_and_persist-IsSound : IsSound sha256 session s.store → IsSound sha256 session s'.store
  run_and_persist-IsSound h =
      run_and_persist_keeps sha256 now p tools session (IsSound sha256 session)
        (λ store kind payload ts k.
          inr (append_event_at-verify_chain sha256 store session kind payload ts k))
        fuel limits message principal s s' r only ran h

  -- A turn that comes back has only added events at the end of its session's log, and has left the
  -- logs of all other sessions as they were, if the tools do nothing to the store but append to it.
  pub run_and_persist-Grows : Grows session s.store s'.store
  run_and_persist-Grows =
      run_and_persist_keeps sha256 now p tools session (Grows session s.store)
        (Grows-append sha256 session s.store) fuel limits message principal s s' r only ran
        (([], sym (append-nil _)), λ other h. refl)
