-- ===== src/Jobs/Tests.antt =====
-- pkgs/host/host/src/session_thread.rs: a queue with a job that panics.
use jan_klod.Common.{
  ℕ, ◌+◌, ◌≡◌, ◌≢◌, refl, arith, none, some, List, [], ◌∷◌, ◌++◌, map, ok, err, ok_or,
}
use jan_klod.Jobs.{
  stopped, panicked, Body, stop, hook, answer, Request, run, send, queued, serve_each, serve,
  received,
}
use jan_klod.Jobs.Answers.{value_after_all, serve_each-answers}

-- A body that counts, and one that counts and then panics.
abbrev count : Body ℕ ℕ
count t = (some t, t + 1)

abbrev panic : Body ℕ ℕ
panic t = (none, t + 1)

abbrev before : List (Request ℕ ℕ)
before = run 1 count ∷ run 2 panic ∷ send panic ∷ []

serve-run :
    serve (map queued before ++ queued (run 3 count) ∷ stop ∷ queued (run 4 count) ∷ []) 0 ≡ (
      hook ∷ answer 1 (ok 0) ∷ hook ∷ answer 2 (err panicked) ∷ hook ∷ hook ∷ answer 3 (ok 3) ∷ [],
      4,
    )
unfolding serve serve_each queued
serve-run = refl

serve_each-answers_example :
    (received 3 (serve_each (λ t. t) (map queued before ++ queued (run 3 count) ∷ []) 0).0
      ≡ ok_or (count (value_after_all (λ t. t) before 0)).0 panicked)
    × (received 3 (serve_each (λ t. t) (map queued before ++ stop ∷ queued (run 3 count) ∷ []) 0).0
        ≡ err stopped)
serve_each-answers_example =
    serve_each-answers (λ t. t) 3 count before [] 0 (one_ne, (two_ne, (tt, tt)))
  where
    one_ne : ◌≢◌ {A = ℕ} 1 3
    one_ne e = omega arith

    two_ne : ◌≢◌ {A = ℕ} 2 3
    two_ne e = omega arith
