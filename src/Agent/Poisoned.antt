-- ===== src/Agent/Poisoned.antt =====
-- pkgs/host/agent/src/lib.rs: a turn whose store cannot be locked.
use jan_klod.Common.{
  ℕ, ◌≤◌, ◌<◌, ◌≡◌, refl, sym, ap, ◌∙◌, String, Bool, true, List, [], ◌∷◌, ◌++◌, map, append_assoc,
  append-nil, Option, some, none, All, All-append, Bool-cases, inl, inr,
}
use jan_klod.Turn.{ToolCall, UserPrompt}
use jan_klod.Intercept.Types.{ToolInvoker}
use jan_klod.Conductor.Effects.{Parts, Limits}
use jan_klod.Conductor.Turns.{RunResult}
use jan_klod.Conductor.Halts.{Settling}
use jan_klod.Conductor.Clearance.{Keeps}
use jan_klod.Conductor.Clearance.Turn.{run_turn-IsCleared}
use jan_klod.Session.Store.{Store}
use jan_klod.Session.Persist.{
  Logged, warning_line, append_encoded, log_user_message, log_follow_up, persisting_sink,
  persisting_driver,
}
use jan_klod.Agent.{logged_parts, run_and_persist, unwarned, history_of}
use jan_klod.Agent.Returns.{run_and_persist_returns}

-- The tools reach the log by the driver that they are handed, and by nothing else.
pub record UseDriver {W : Type 0} (sha256 : String → String) (now : W → ℕ) (p : Parts W)
    (tools : ToolInvoker (Logged W)) (session : String) : Type 1 where
  pub binding :
      (P : Logged W → Type 0)
      → ((w : W) (s : Logged W) → P s → P (record s { inner = w }))
      → (name : String) (s : Logged W) → P s
      → P (tools.bind_session name s)
  pub invoking :
      (P : Logged W → Type 0)
      → ((w : W) (s : Logged W) → P s → P (record s { inner = w }))
      → ((q : UserPrompt) (s : Logged W)
          → P s
          → P ((persisting_driver p.codec sha256 now session p.driver).ask q s).1)
      → ((s : Logged W)
          → P s
          → P ((persisting_driver p.codec sha256 now session p.driver).follow_up s).1)
      → (call : ToolCall) (s : Logged W) → P s
      → P (tools.invoke_asking call (persisting_driver p.codec sha256 now session p.driver) s).1

-- The lock is poisoned, the store is `store`, and nothing but the warning of `session` was printed
-- after `printed`.
abbrev pub IsUntouched : {W : Type 0} → String → Store → List String → Logged W → Type 0
IsUntouched session store printed s =
    (s.poisoned ≡ true)
    × (s.store ≡ store)
    × (added : List String) × (s.stderr ≡ printed ++ added)
    × All (λ (l : String). l ≡ warning_line session) added

All-each :
    {A B : Type 0} (Q : B → Type 0) (f : A → B) (xs : List A)
    → ((x : A) → Q (f x))
    → All Q (map f xs)
All-each Q f [] h = tt
All-each Q f (x ∷ xs) h = (h x, All-each Q f xs h)

module _ {W : Type 0} (sha256 : String → String) (now : W → ℕ) (p : Parts W)
    (tools : ToolInvoker (Logged W)) (session : String) (store : Store)
    (printed : List String) where
  append_encoded-IsUntouched :
      (warned : Bool) (kind payload : String) (s : Logged W)
      → IsUntouched session store printed s
      → IsUntouched session store printed
          (append_encoded p.codec sha256 now session warned kind payload s).1
  unfolding append_encoded
  append_encoded-IsUntouched warned kind payload s (locked, same, added, e, ws) =
      elim (Bool-cases warned) [
        | inl f ↦ rw (locked, f) (refl, same, added, e, ws)
        | inr f ↦
            rw (locked, f)
              (
                refl,
                same,
                added ++ warning_line session ∷ [],
                ap (λ (l : List String). l ++ warning_line session ∷ []) e
                    ∙ append_assoc printed added (warning_line session ∷ []),
                All-append _ added _ ws (refl, tt),
              )
      ]

  log_follow_up-IsUntouched :
      (r : Option String × Logged W)
      → IsUntouched session store printed r.1
      → IsUntouched session store printed (log_follow_up p.codec sha256 now session r).1
  log_follow_up-IsUntouched (none, s) h = h
  log_follow_up-IsUntouched (some message, s) h = append_encoded-IsUntouched _ _ _ s h

  logged_parts-Keeps :
      UseDriver sha256 now p tools session
      → Keeps (IsUntouched session store printed) (logged_parts sha256 now p tools session)
  unfolding logged_parts persisting_sink persisting_driver
  logged_parts-Keeps only = record {
    intercepts = All-each _ _ p.interceptors (λ i x s h. h);
    completes = All-each _ _ p.providers (λ c r s h. h);
    asking = λ q s h. append_encoded-IsUntouched _ _ _ _ (append_encoded-IsUntouched _ _ _ s h);
    following = λ s h. log_follow_up-IsUntouched _ h;
    emitting = λ e s h. append_encoded-IsUntouched _ _ _ s h;
    binding = only.binding _ (λ w s h. h);
    invoking = λ c s k h.
        only.invoking _ (λ w u i. i)
          (λ q u i. append_encoded-IsUntouched _ _ _ _ (append_encoded-IsUntouched _ _ _ u i))
          (λ u i. log_follow_up-IsUntouched _ i) c s h;
  }

  log_user_message-IsUntouched :
      (text : String) (s : Logged W)
      → IsUntouched session store printed s
      → IsUntouched session store printed (log_user_message p.codec sha256 now session text s)
  unfolding log_user_message
  log_user_message-IsUntouched text s h = append_encoded-IsUntouched _ _ _ s h

  ran-IsUntouched :
      (fuel : ℕ) (limits : Limits) (message : String) (principal : Option String) (s s' : Logged W)
      (r : RunResult)
      → UseDriver sha256 now p tools session
      → run_and_persist sha256 now p tools session fuel limits message principal s ≡ some (r, s')
      → IsUntouched session store printed s
      → IsUntouched session store printed s'
  unfolding run_and_persist
  ran-IsUntouched fuel limits message principal s s' r only e h =
      run_turn-IsCleared (IsUntouched session store printed)
        (logged_parts sha256 now p tools session) fuel limits session message
        (history_of p.codec session s) principal _ (unwarned sha256 now p tools session s) r s'
        (logged_parts-Keeps only) log_user_message-IsUntouched h e

module _ {W : Type 0} (sha256 : String → String) (now : W → ℕ) (p : Parts W)
    (tools : ToolInvoker (Logged W)) (session : String) where
  -- A turn of a session whose lock is poisoned comes back with a result, the store as it was, and
  -- nothing printed of the log but the session's warning; where the tools reach the log by the driver
  -- that they are handed only, no interceptor asks again once it has been answered, and the rounds
  -- are at least as many as the cap.
  pub run_and_persist-IsUntouched :
      (fuel : ℕ) (limits : Limits) (message : String) (principal : Option String) (s : Logged W)
      → UseDriver sha256 now p tools session
      → Settling p
      → 0 < fuel
      → limits.max_iterations ≤ fuel
      → s.poisoned ≡ true
      → (r : RunResult) × (s' : Logged W) × (run_and_persist sha256 now p tools session fuel limits
            message principal s
          ≡ some (r, s'))
        × IsUntouched session s.store s.stderr s'
  run_and_persist-IsUntouched fuel limits message principal s only settling h k locked =
      let (r, s', e) =
        run_and_persist_returns sha256 now p tools session fuel limits message principal s settling
          h k in
      (
        r,
        s',
        e,
        ran-IsUntouched sha256 now p tools session s.store s.stderr fuel limits message principal s
            s' r only e (locked, refl, [], sym (append-nil s.stderr), tt),
      )
