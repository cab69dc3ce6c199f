-- ===== src/Conductor/Cost.antt =====
-- pkgs/host/agent/src/conductor.rs: how often one round of the loop calls a provider.
use jan_klod.Common.{
  ℕ, zero, suc, ◌+◌, ◌*◌, ◌≤◌, ◌≡◌, refl, sym, subst, String, List, [], ◌∷◌, ◌++◌, Result, ok, err,
  inl, inr, arith, All, format, Result-cases, Bool-cases,
}
use jan_klod.Turn.{Event, warning}
use jan_klod.Intercept.Types.{PendingRequest, Completion, Completer, was_truncated}
use jan_klod.Conductor.Effects.{Parts}
use jan_klod.Conductor.Provider.{
  failure_note, corrected, fallback_loop, fallback_from, complete_with_fallback, warn_truncated,
  check_completion, attempt, Attempt, failed, accepted, malformed, last_attempt, or_retry,
  retry_loop, complete_validated,
}

-- A call of the provider adds at most `n` to the cost.
abbrev pub CostsAtMost : {W : Type 0} → (W → ℕ) → ℕ → Completer W → Type 0
CostsAtMost {W} cost n c = (r : PendingRequest) (w : W) → cost (c.complete r w).1 ≤ cost w + n

-- A call of each of the providers adds at most `n` to the cost, all in all.
data Charges {W : Type 0} (cost : W → ℕ) : List (Completer W) → ℕ → Type 0 where
  none_left : Charges cost [] 0
  charged :
      (c : Completer W) (cs : List (Completer W)) (m n : ℕ)
      → CostsAtMost cost m c
      → Charges cost cs n
      → Charges cost (c ∷ cs) (m + n)

Charges-free :
    {W : Type 0} (cost : W → ℕ) (cs : List (Completer W))
    → All (CostsAtMost cost 0) cs
    → Charges cost cs 0
Charges-free cost [] h = none_left
Charges-free cost (c ∷ cs) (h, hs) = charged c cs 0 0 h (Charges-free cost cs hs)

-- Where one provider alone costs anything, they cost what it does.
Charges-one :
    {W : Type 0} (cost : W → ℕ) (before after : List (Completer W)) (c : Completer W)
    → All (CostsAtMost cost 0) before
    → CostsAtMost cost 1 c
    → All (CostsAtMost cost 0) after
    → Charges cost (before ++ c ∷ after) 1
Charges-one cost [] after c _ h hs = charged c after 1 0 h (Charges-free cost after hs)
Charges-one cost (b ∷ before) after c (k, ks) h hs =
    charged b (before ++ c ∷ after) 0 1 k (Charges-one cost before after c ks h hs)

-- The work of a completion, counted on the state by `cost`: a call of each provider costs at most
-- `total`, all in all, and what the client is told costs nothing.
module _ {W : Type 0} (p : Parts W) (cost : W → ℕ) (total : ℕ)
    (each : Charges cost p.providers total)
    (free : (e : Event) (w : W) → cost (p.sink.emit e w).1 ≡ cost w) where
  fallback_loop_cost :
      (request : PendingRequest) (cs : List (Completer W)) (failures : List String) (w : W) (n : ℕ)
      → Charges cost cs n
      → cost (fallback_loop p request cs failures w).1 ≤ cost w + n
  unfolding fallback_loop
  fallback_loop_cost request _ failures w _ none_left = omega arith
  fallback_loop_cost request _ failures w _ (charged c cs m n k ks) =
      elim (Result-cases (c.complete request w).0) [
        | inl (completion, e) ↦ rw (e, fallback_loop) (omega (arith, k request w))
        | inr (reason, e) ↦
            rw (e, fallback_loop)
              (omega (
                arith,
                k request w,
                free
                    (warning
                      (format ("provider " ∷ failure_note c.id reason ∷ "; falling back" ∷ [])))
                    (c.complete request w).1,
                fallback_loop_cost request cs (failures ++ failure_note c.id reason ∷ [])
                    (p.sink.emit
                      (warning
                        (format ("provider " ∷ failure_note c.id reason ∷ "; falling back" ∷ [])))
                      (c.complete request w).1).1
                    n ks,
              ))
      ]

  fallback_from_cost :
      (request : PendingRequest) (cs : List (Completer W)) (w : W) (n : ℕ)
      → Charges cost cs n
      → cost (fallback_from p cs request w).1 ≤ cost w + n
  unfolding fallback_from
  fallback_from_cost request [] w n k = omega arith
  fallback_from_cost request (c ∷ cs) w n k = fallback_loop_cost request (c ∷ cs) [] w n k

  check_completion_cost :
      (r : Result Completion String × W) → cost (check_completion p r).1 ≡ cost r.1
  unfolding check_completion warn_truncated
  check_completion_cost (err reason, w) = refl
  check_completion_cost (ok c, w) = elim (Bool-cases (was_truncated c)) [
    | inl truncated ↦ rw (truncated, warn_truncated) (free _ w)
    | inr whole ↦ rw (whole, warn_truncated)
  ]

  attempt_cost : (request : PendingRequest) (w : W) → cost (attempt p request w).1 ≤ cost w + total
  unfolding attempt complete_with_fallback
  attempt_cost request w = omega (
    arith,
    check_completion_cost (fallback_from p p.providers request w),
    fallback_from_cost request p.providers w total each,
  )

  last_attempt_cost : (r : Attempt × W) → cost (last_attempt p r).1 ≡ cost r.1
  last_attempt_cost (failed reason, w) = refl
  last_attempt_cost (accepted c, w) = refl
  last_attempt_cost (malformed c reason, w) = refl

  or_retry_cost :
      (next : PendingRequest → W → Result Completion String × W) (request : PendingRequest)
      (r : Attempt × W) (n : ℕ)
      → ((request1 : PendingRequest) (u : W) → cost (next request1 u).1 ≤ cost u + n)
      → cost (or_retry p next request r).1 ≤ cost r.1 + n
  or_retry_cost next request (failed reason, w) n k = omega arith
  or_retry_cost next request (accepted c, w) n k = omega arith
  or_retry_cost next request (malformed c reason, w) n k =
      let told = warning (format ("malformed output; retrying: " ∷ reason ∷ [])) in
      omega (arith, free told w, k (corrected request c.text reason) (p.sink.emit told w).1)

  retry_loop_cost :
      (left : ℕ) (request : PendingRequest) (w : W)
      → cost (retry_loop p left request w).1 ≤ cost w + suc left * total
  unfolding retry_loop
  retry_loop_cost zero request w =
      omega (arith, last_attempt_cost (attempt p request w), attempt_cost request w)
  retry_loop_cost (suc left) request w = omega (
    arith,
    or_retry_cost (retry_loop p left) request (attempt p request w) (suc left * total)
        (retry_loop_cost left),
    attempt_cost request w,
  )

  complete_validated_total :
      (request : PendingRequest) (w : W)
      → cost (complete_validated p request w).1 ≤ cost w + 4 * total
  unfolding complete_validated
  complete_validated_total request w = omega (arith, retry_loop_cost 3 request w)

module _ {W : Type 0} (p : Parts W) (before after : List (Completer W)) (c : Completer W)
    (one_of : p.providers ≡ before ++ c ∷ after) where
  -- One completion calls each provider at most four times: the first attempt and three retries. For
  -- the provider `c` of the list, `cost` counts its calls on the shared state, one at most for each,
  -- and counts nothing for the calls of the others and for what the client is told.
  pub complete_validated_cost :
      (cost : W → ℕ)
      → CostsAtMost cost 1 c
      → All (CostsAtMost cost 0) before
      → All (CostsAtMost cost 0) after
      → ((e : Event) (w : W) → cost (p.sink.emit e w).1 ≡ cost w)
      → (request : PendingRequest) (w : W) → cost (complete_validated p request w).1 ≤ cost w + 4
  complete_validated_cost cost once ks ls free request w =
      complete_validated_total p cost 1
        (subst (λ cs. Charges cost cs 1) (sym one_of) (Charges-one cost before after c ks once ls))
        free request w
