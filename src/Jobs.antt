-- ===== src/Jobs.antt =====
-- pkgs/host/host/src/session_thread.rs: the queue of the thread that owns a session. The channel is the
-- list of the tasks in the order in which they were sent; its end is the point where every handle is
-- dropped. A job that panics gives no outcome and leaves the owned value as it then is.
pub mod Answers
pub mod Tests
use jan_klod.Common.{
  ℕ, Option, none, some, Bool, true, false, List, [], ◌∷◌, ◌++◌, ◌==◌, Result, ok, err, ok_or,
  if◌then◌else◌,
}

pub data NoAnswer : Type 0 where
  stopped panicked : NoAnswer

module _ (T R : Type 0) where
  -- What a job leaves to deliver: a message to the caller that waits on a channel, or nothing.
  abbrev pub Deliver : Type 0
  Deliver = Option (ℕ × Result R NoAnswer)

  abbrev pub Job : Type 0
  Job = T → Deliver × T

  -- The caller's closure under `catch_unwind`.
  abbrev pub Body : Type 0
  Body = T → Option R × T

  pub data Task : Type 0 where
    work : Job → Task
    stop : Task

  -- What the loop does, in order: the hook runs, or an answer is sent.
  pub data Served : Type 0 where
    hook : Served
    answer : ℕ → Result R NoAnswer → Served

  -- A request of a caller: `Jobs::run` waits on the channel `k`, `Jobs::send` does not wait.
  pub data Request : Type 0 where
    run : ℕ → Body → Request
    send : Body → Request

module _ {T R : Type 0} where
  unfoldable pub queued : Request T R → Task T R
  queued (run k body) =
      work (λ t. let (outcome, t1) = body t in (some (k, ok_or outcome panicked), t1))
  queued (send body) = work (λ t. let (outcome, t1) = body t in (none, t1))

  abbrev pub deliver : Deliver T R → List (Served T R)
  deliver none = []
  deliver (some (k, message)) = answer k message ∷ []

  -- The loop, with the steps that it takes and the value that it leaves.
  unfoldable pub serve_each : (T → T) → List (Task T R) → T → List (Served T R) × T
  serve_each after [] t = ([], t)
  serve_each after (stop ∷ tasks) t = ([], t)
  serve_each after (work job ∷ tasks) t =
      let (delivery, t1) = job t in
      let (steps, t2) = serve_each after tasks (after t1) in
      (hook ∷ (deliver delivery ++ steps), t2)

  unfoldable pub serve : List (Task T R) → T → List (Served T R) × T
  serve = serve_each (λ t. t)

  -- `wait.recv()` of the caller that waits on `k`: the first message, or none when the loop is gone.
  unfoldable pub received : ℕ → List (Served T R) → Result R NoAnswer
  received k [] = err stopped
  received k (hook ∷ steps) = received k steps
  received k (answer j message ∷ steps) = if j == k then message else received k steps
