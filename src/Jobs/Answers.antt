-- ===== src/Jobs/Answers.antt =====
-- pkgs/host/host/src/session_thread.rs: who is answered.
use jan_klod.Common.{
  ℕ, ◌≡◌, ◌≢◌, refl, ◌∙◌, arith, true, false, List, [], ◌∷◌, ◌++◌, map, All, ◌==◌, err, ok_or,
}
use jan_klod.Jobs.{
  stopped, panicked, Body, Task, stop, Request, run, send, queued, serve_each, received,
}

module _ {T R : Type 0} (after : T → T) where
  -- The request does not wait on the channel `k`.
  abbrev pub IsOther : ℕ → Request T R → Type 0
  IsOther k (run j body) = j ≢ k
  IsOther k (send body) = Unit

  -- The value after a request, whether or not it panics, with the hook.
  abbrev pub value_after : Request T R → T → T
  value_after (run j body) t = after (body t).1
  value_after (send body) t = after (body t).1

  abbrev pub value_after_all : List (Request T R) → T → T
  value_after_all [] t = t
  value_after_all (r ∷ rs) t = value_after_all rs (value_after r t)

  received-other :
      (k : ℕ) (r : Request T R) (tasks : List (Task T R)) (t : T)
      → IsOther k r
      → received k (serve_each after (queued r ∷ tasks) t).0
        ≡ received k (serve_each after tasks (value_after r t)).0
  unfolding serve_each received queued
  received-other k (run j body) tasks t h = rw (differs j h) refl
    where
      differs : (j : ℕ) → j ≢ k → (j == k) ≡ false
      differs j h = ground arith
  received-other k (send body) tasks t h = refl

  received-others :
      (k : ℕ) (before : List (Request T R)) (tasks : List (Task T R)) (t : T)
      → All (IsOther k) before
      → received k (serve_each after (map queued before ++ tasks) t).0
        ≡ received k (serve_each after tasks (value_after_all before t)).0
  received-others k [] tasks t h = refl
  received-others k (r ∷ before) tasks t (h, hs) =
      received-other k r (map queued before ++ tasks) t h
      ∙ received-others k before tasks (value_after r t) hs

  -- Each caller that waits is answered. A request that is queued before the loop is stopped gets the
  -- outcome of its own body on the value that the requests before it left, whatever they did and also
  -- if they panicked, or is told that its body panicked; a request that is queued after the stop is
  -- told that the loop is gone.
  pub serve_each-answers :
      (k : ℕ) (body : Body T R) (before : List (Request T R)) (tasks : List (Task T R)) (t : T)
      → All (IsOther k) before
      → (received k (serve_each after (map queued before ++ queued (run k body) ∷ tasks) t).0
          ≡ ok_or (body (value_after_all before t)).0 panicked)
        × (received k
              (serve_each after (map queued before ++ stop ∷ queued (run k body) ∷ tasks) t).0
            ≡ err stopped)
  serve_each-answers k body before tasks t h = (
    received-others k before (queued (run k body) ∷ tasks) t h ∙ own (value_after_all before t),
    received-others k before (stop ∷ queued (run k body) ∷ tasks) t h
        ∙ unfold serve_each received in refl,
  )
    where
      same : (k == k) ≡ true
      same = ground arith

      own :
          (u : T)
          → received k (serve_each after (queued (run k body) ∷ tasks) u).0
            ≡ ok_or (body u).0 panicked
      own u = unfold serve_each received queued in rw same refl
