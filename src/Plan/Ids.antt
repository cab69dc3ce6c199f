-- ===== src/Plan/Ids.antt =====
-- pkgs/extensions/tool-plan/src/plan.rs: the numbers of the steps.
use jan_klod.Common.{
  ℕ, ◌+◌, ◌%◌, ◌≤◌, ◌<◌, ◌≡◌, ◌⊎◌, inl, inr, arith, String, Bool, true, false, List, [], ◌∷◌, ◌++◌,
  retain, All, All-append, All-retain, length, any, ◌==◌, is_empty, trim, str_eq, Bool-cases,
  Result, ok, err, ok_or, format, ◌>>=◌, All-map, if◌then◌else◌,
}
use jan_klod.Json.{Value, str_field}
use jan_klod.Plan.Steps.{
  u32_max, State, Step, Plan, PlanError, bad_arguments, add_step, set_first, set_state, others,
  remove_step, call_id, call_text, call_state, run_op, apply_call,
}

-- Numbered upwards, with no two alike.
abbrev pub Ascending : List Step → Type 0
Ascending [] = Unit
Ascending (s ∷ ss) = All (λ (x : Step). s.id < x.id) ss × Ascending ss

-- A plan is sound if its steps are numbered upwards, with numbers that were issued.
abbrev pub IsSound : Plan → Type 0
IsSound plan =
    Ascending plan.steps
    × All (λ (s : Step). s.id ≤ plan.issued) plan.steps
    × (plan.issued ≤ u32_max)

-- `n` is the number of a step.
abbrev pub Has : ℕ → List Step → Type 0
Has n [] = ⊥
Has n (s ∷ ss) = (s.id ≡ n) ⊎ Has n ss

-- No number that `before` had issued comes back: the steps that are numbered up to it are old ones.
abbrev pub Renews : Plan → Plan → Type 0
Renews before after =
    (before.issued ≤ after.issued)
    × ((n : ℕ) → n ≤ before.issued → Has n after.steps → Has n before.steps)

Ascending-concat :
    (ss : List Step) (t : Step)
    → Ascending ss
    → All (λ (s : Step). s.id < t.id) ss
    → Ascending (ss ++ t ∷ [])
Ascending-concat [] t h k = (tt, tt)
Ascending-concat (s ∷ ss) t (h, hs) (k, ks) =
    (All-append (λ (x : Step). s.id < x.id) ss (t ∷ []) h (k, tt), Ascending-concat ss t hs ks)

Ascending-retain : (p : Step → Bool) (ss : List Step) → Ascending ss → Ascending (retain p ss)
Ascending-retain p [] h = tt
Ascending-retain p (s ∷ ss) (h, hs) = elim (Bool-cases (p s)) [
  | inl e ↦ rw e (All-retain (λ (x : Step). s.id < x.id) p ss h, Ascending-retain p ss hs)
  | inr e ↦ rw e (Ascending-retain p ss hs)
]

Has-cons :
    (n : ℕ) (s : Step) (xs ys : List Step)
    → (Has n xs → Has n ys)
    → (s.id ≡ n) ⊎ Has n xs
    → (s.id ≡ n) ⊎ Has n ys
Has-cons n s xs ys f (inl e) = inl e
Has-cons n s xs ys f (inr h) = inr (f h)

Has-retain : (n : ℕ) (p : Step → Bool) (ss : List Step) → Has n (retain p ss) → Has n ss
Has-retain n p [] = λ h. h
Has-retain n p (s ∷ ss) = elim (Bool-cases (p s)) [
  | inl e ↦ rw e (Has-cons n s (retain p ss) ss (Has-retain n p ss))
  | inr e ↦ rw e λ h. inr (Has-retain n p ss h)
]

Has-concat : (n : ℕ) (ss : List Step) (t : Step) → Has n (ss ++ t ∷ []) → Has n ss ⊎ (t.id ≡ n)
Has-concat n [] t (inl e) = inr e
Has-concat n [] t (inr h) = absurd h
Has-concat n (s ∷ ss) t (inl e) = inl (inl e)
Has-concat n (s ∷ ss) t (inr h) = elim (Has-concat n ss t h) [ inl k ↦ inl (inr k) | inr k ↦ inr k ]

-- Setting a state leaves the numbers as they are.
All-set_first :
    (P : ℕ → Type 0) (id : ℕ) (state : State) (ss : List Step)
    → All (λ (s : Step). P s.id) ss
    → All (λ (s : Step). P s.id) (set_first id state ss)
unfolding set_first
All-set_first P id state [] h = tt
All-set_first P id state (s ∷ ss) (h, hs) = elim (Bool-cases (s.id == id)) [
  | inl e ↦ rw e (h, hs)
  | inr e ↦ rw e (h, All-set_first P id state ss hs)
]

Ascending-set_first :
    (id : ℕ) (state : State) (ss : List Step) → Ascending ss → Ascending (set_first id state ss)
unfolding set_first
Ascending-set_first id state [] h = tt
Ascending-set_first id state (s ∷ ss) (h, hs) = elim (Bool-cases (s.id == id)) [
  | inl e ↦ rw e (h, hs)
  | inr e ↦ rw e (All-set_first (λ n. s.id < n) id state ss h, Ascending-set_first id state ss hs)
]

Has-set_first :
    (n id : ℕ) (state : State) (ss : List Step) → Has n (set_first id state ss) → Has n ss
unfolding set_first
Has-set_first n id state [] = λ h. h
Has-set_first n id state (s ∷ ss) = elim (Bool-cases (s.id == id)) [
  | inl e ↦ rw e λ h. h
  | inr e ↦ rw e (Has-cons n s (set_first id state ss) ss (Has-set_first n id state ss))
]

-- What an operation on a sound plan keeps, where it is not refused.
abbrev pub Keeps : Plan → Result Plan PlanError → Type 0
Keeps plan (ok after) = IsSound after × Renews plan after × (after.issued ≤ plan.issued + 1)
Keeps plan (err error) = Unit

Keeps-if :
    (plan : Plan) (b : Bool) (x y : Result Plan PlanError)
    → Keeps plan x
    → Keeps plan y
    → Keeps plan (if b then x else y)
Keeps-if plan true x y h k = h
Keeps-if plan false x y h k = k

Keeps-bind :
    {A : Type 0} (plan : Plan) (r : Result A PlanError) (f : A → Result Plan PlanError)
    → ((a : A) → Keeps plan (f a))
    → Keeps plan (r >>= f)
Keeps-bind plan (ok a) f h = h a
Keeps-bind plan (err e) f h = tt

module _ (plan : Plan) (sound : IsSound plan) where
  -- The steps are other ones, and no number is new.
  Keeps-steps :
      (ss : List Step)
      → Ascending ss
      → All (λ (s : Step). s.id ≤ plan.issued) ss
      → ((n : ℕ) → Has n ss → Has n plan.steps)
      → Keeps plan (ok (record plan { steps = ss }))
  Keeps-steps ss a below has = ((a, below, sound.2), (omega arith, λ n _ h. has n h), omega arith)

  add_step-Keeps : (text : String) → plan.issued < u32_max → Keeps plan (add_step text plan)
  unfolding add_step
  add_step-Keeps text room = Keeps-if plan (is_empty text) _ _ tt (
      rw next (
        (
          Ascending-concat plan.steps _ sound.0 (
              All-map (λ (s : Step). s.id ≤ plan.issued) (λ (s : Step). s.id < plan.issued + 1)
                (λ s h. omega arith) plan.steps sound.1),
          All-append (λ (s : Step). s.id ≤ plan.issued + 1) plan.steps _
              (All-map (λ (s : Step). s.id ≤ plan.issued) (λ (s : Step). s.id ≤ plan.issued + 1)
                (λ s h. omega arith) plan.steps sound.1)
              (omega arith, tt),
          omega arith,
        ),
        (omega arith, λ n le h. old n le (Has-concat n plan.steps _ h)),
        omega arith,
      ))
    where
      next : (plan.issued + 1) % (u32_max + 1) ≡ plan.issued + 1
      next = omega arith

      old : (n : ℕ) → n ≤ plan.issued → Has n plan.steps ⊎ (plan.issued + 1 ≡ n) → Has n plan.steps
      old n le (inl h) = h
      old n le (inr e) = absurd (omega arith)

  set_state-Keeps : (id : ℕ) (state : State) → Keeps plan (set_state id state plan)
  unfolding set_state
  set_state-Keeps id state =
      Keeps-if plan (any (λ s. s.id == id) plan.steps) _ _
        (Keeps-steps _ (Ascending-set_first id state plan.steps sound.0)
          (All-set_first (λ n. n ≤ plan.issued) id state plan.steps sound.1)
          (λ n. Has-set_first n id state plan.steps))
        tt

  remove_step-Keeps : (id : ℕ) → Keeps plan (remove_step id plan)
  unfolding remove_step
  remove_step-Keeps id = Keeps-if plan (length (others id plan.steps) == length plan.steps) _ _ tt (
      Keeps-steps _ (Ascending-retain _ plan.steps sound.0)
        (All-retain (λ (s : Step). s.id ≤ plan.issued) _ plan.steps sound.1)
        (λ n. Has-retain n _ plan.steps))

  pub apply_call-Keeps : (call : Value) → plan.issued < u32_max → Keeps plan (apply_call call plan)
  unfolding apply_call run_op
  apply_call-Keeps call room =
      Keeps-bind plan (ok_or (str_field call "op") (bad_arguments "no `op`")) _ λ op.
        Keeps-if plan (str_eq op "list") (ok plan) _
          (Keeps-steps plan.steps sound.0 sound.1 (λ n h. h))
          (Keeps-if plan (str_eq op "add") _ _
            (Keeps-bind plan (call_text call) _ (λ text. add_step-Keeps (trim text) room))
            (Keeps-if plan (str_eq op "set-state") _ _
              (Keeps-bind plan (call_id call) _
                (λ id. Keeps-bind plan (call_state call) _ (λ state. set_state-Keeps id state)))
              (Keeps-if plan (str_eq op "remove") _ _
                (Keeps-bind plan (call_id call) _ (λ id. remove_step-Keeps id))
                (Keeps-if plan (str_eq op "clear") (ok (record plan { steps = [] }))
                  (err (bad_arguments (format ("unknown op `" ∷ op ∷ "`" ∷ []))))
                  (Keeps-steps [] tt tt (λ n h. absurd h)) tt))))

-- The plan after a call, which is the plan before it where the call is refused.
abbrev pub settled : Plan → Result Plan PlanError → Plan
settled plan (ok after) = after
settled plan (err error) = plan

unfoldable pub after_calls : List Value → Plan → Plan
after_calls [] plan = plan
after_calls (call ∷ calls) plan = after_calls calls (settled plan (apply_call call plan))

settled-Keeps :
    (plan : Plan) (r : Result Plan PlanError)
    → IsSound plan
    → Keeps plan r
    → IsSound (settled plan r)
      × Renews plan (settled plan r)
      × ((settled plan r).issued ≤ plan.issued + 1)
settled-Keeps plan (ok after) sound h = h
settled-Keeps plan (err error) sound h = (sound, (omega arith, λ n _ k. k), omega arith)

-- Whatever a model calls, in whatever order: the steps of the plan are numbered upwards with no two
-- alike, and a number that was issued before is that of a step only if it was so all along, so the
-- number of a removed step never comes back. The calls must leave room below the largest number.
pub after_calls-IsSound :
    (calls : List Value) (plan : Plan)
    → IsSound plan
    → plan.issued + length calls ≤ u32_max
    → IsSound (after_calls calls plan) × Renews plan (after_calls calls plan)
unfolding after_calls
after_calls-IsSound [] plan sound room = (sound, (omega arith, λ n _ h. h))
after_calls-IsSound (call ∷ calls) plan sound room =
    let kept =
      settled-Keeps plan (apply_call call plan) sound
        (apply_call-Keeps plan sound call (omega arith)) in
    let then_kept =
      after_calls-IsSound calls (settled plan (apply_call call plan)) kept.0 (fits kept.2) in
    (
      then_kept.0,
      (
        after_le kept.1.0 then_kept.1.0,
        λ n le h. kept.1.1 n le (then_kept.1.1 n (below n le kept.1.0) h),
      ),
    )
  where
    fits : {n : ℕ} → n ≤ plan.issued + 1 → n + length calls ≤ u32_max
    fits h = omega arith

    after_le : {a b c : ℕ} → a ≤ b → b ≤ c → a ≤ c
    after_le h k = omega arith

    below : (n : ℕ) {b : ℕ} → n ≤ plan.issued → plan.issued ≤ b → n ≤ b
    below n h k = omega arith
