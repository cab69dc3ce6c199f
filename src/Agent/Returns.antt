-- ===== src/Agent/Returns.antt =====
-- pkgs/host/agent/src/lib.rs: a turn of a session comes back, whatever the store does.
use jan_klod.Common.{ℕ, ◌≤◌, ◌<◌, ◌≡◌, String, List, [], ◌∷◌, map, Option, some, All}
use jan_klod.Intercept.Types.{Interceptor, ToolInvoker}
use jan_klod.Intercept.Halts.{IsDecisive}
use jan_klod.Conductor.Effects.{Parts, Limits}
use jan_klod.Conductor.Turns.{RunResult}
use jan_klod.Conductor.Halts.{Settling, run_turn_returns}
use jan_klod.Session.Persist.{Logged, log_user_message}
use jan_klod.Agent.{lift_interceptor, logged_parts, run_and_persist, unwarned, history_of}

module _ {W : Type 0} (sha256 : String → String) (now : W → ℕ) (p : Parts W)
    (tools : ToolInvoker (Logged W)) (session : String) where
  lifted-IsDecisive :
      (is : List (Interceptor W))
      → All IsDecisive is
      → All IsDecisive (map (lift_interceptor sha256 now p tools session) is)
  lifted-IsDecisive [] h = tt
  lifted-IsDecisive (i ∷ is) (h, hs) =
      ((λ phase s reply w q. h phase s reply w.inner q), lifted-IsDecisive is hs)

  logged_parts-Settling : Settling p → Settling (logged_parts sha256 now p tools session)
  unfolding logged_parts
  logged_parts-Settling settling = record {
    decisive = lifted-IsDecisive p.interceptors settling.decisive;
    fuelled = settling.fuelled;
  }

  -- Where no interceptor asks again once it has been answered, a turn of a session comes back with a
  -- result, whatever the tools and the client do, and also if the store's lock is poisoned: as many
  -- rounds as the cap are enough.
  pub run_and_persist_returns :
      (fuel : ℕ) (limits : Limits) (message : String) (principal : Option String) (s : Logged W)
      → Settling p
      → 0 < fuel
      → limits.max_iterations ≤ fuel
      → (r : RunResult) × (s' : Logged W) × (run_and_persist sha256 now p tools session fuel limits
            message principal s
          ≡ some (r, s'))
  unfolding run_and_persist
  run_and_persist_returns fuel limits message principal s settling h k =
      run_turn_returns {p = logged_parts sha256 now p tools session}
        (logged_parts-Settling settling) fuel limits session message (history_of p.codec session s)
        principal (log_user_message p.codec sha256 now session)
        (unwarned sha256 now p tools session s) h k
