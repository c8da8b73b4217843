-- ===== src/Schedule/Rounds.antt =====
-- What the rounds of app/agent/executor_node.py execute.
use ai_agent_task_assistant.Common.{
  ℕ, zero, suc, String, ◌+◌, ◌≤◌, ◌<◌, ◌≡◌, ◌≢◌, ◌↔◌, refl, inl, inr, false, Bool-cases, List, [],
  ◌∷◌, ◌++◌, length, drop, leb, All, arith,
}
use ai_agent_task_assistant.Schedule.{
  PlannedTask, TaskResult, is_ready, ready_from, has_deps, get_parallel_batch, max_from, or_single,
  chosen, Progress, executes, advanced, run, rounds, after_rounds,
}

-- the numbers from `i`, `n` of them
abbrev pub range : ℕ → ℕ → List ℕ
range i zero = []
range i (suc n) = i ∷ range (suc i) n

max_from-ge : (n : ℕ) (xs : List ℕ) → n ≤ max_from n xs
max_from-ge n [] = omega arith
max_from-ge n (x ∷ xs) = ground (arith, max_from-ge x xs, max_from-ge n xs)

All-weaken : {P Q : ℕ → Type 0} → ((k : ℕ) → P k → Q k) → (ks : List ℕ) → All P ks → All Q ks
All-weaken f [] h = tt
All-weaken f (k ∷ ks) (p, h) = (f k p, All-weaken f ks h)

or_single-ge :
    (idx : ℕ) (batch : List ℕ) → All (λ k. idx ≤ k) batch → All (λ k. idx ≤ k) (or_single batch idx)
or_single-ge idx [] h = (omega arith, tt)
or_single-ge idx (b ∷ batch) h = h

chosen-ge :
    (idx : ℕ) (batch : List ℕ) → All (λ k. idx ≤ k) batch → All (λ k. idx ≤ k) (chosen idx batch)
chosen-ge idx [] h = (omega arith, tt)
chosen-ge idx (b ∷ []) h = (omega arith, tt)
chosen-ge idx (a ∷ b ∷ batch) h = h

All-append : (P : ℕ → Type 0) (xs ys : List ℕ) → All P xs → All P ys → All P (xs ++ ys)
All-append P [] ys h k = k
All-append P (x ∷ xs) ys (p, h) k = (p, All-append P xs ys h k)

chosen-nonempty : (idx : ℕ) (batch : List ℕ) → chosen idx batch ≢ []
chosen-nonempty idx [] h = cc h
chosen-nonempty idx (b ∷ []) h = cc h
chosen-nonempty idx (a ∷ b ∷ batch) h = cc h

module _ (perform : ℕ → List TaskResult → TaskResult) (tasks : List PlannedTask) where
  executes-serial :
      (s : Progress)
      → has_deps tasks ≡ false
      → s.current_task_index < length tasks
      → executes perform tasks s ≡ s.current_task_index ∷ []
  unfolding executes get_parallel_batch
  executes-serial s plain inside = rw plain (ground arith)

  -- A plan without dependencies is executed one subtask after the other: as many rounds as there are
  -- subtasks from the current one on execute just these, in their order, each once.
  pub rounds-serial :
      (n : ℕ) (s : Progress)
      → has_deps tasks ≡ false
      → s.current_task_index + n ≡ length tasks
      → rounds perform tasks n s ≡ range s.current_task_index n
  unfolding rounds run
  rounds-serial zero s plain e = refl
  rounds-serial (suc n) s plain e = rw (executes-serial s plain (omega (arith, e))) (
      cc (
        rounds-serial n (advanced perform tasks s (s.current_task_index ∷ [])) plain
          (omega (arith, e))))

  ready_from-ge :
      (done : List String) (i : ℕ) (ts : List PlannedTask) → All (λ k. i ≤ k) (ready_from done i ts)
  unfolding ready_from
  ready_from-ge done i [] = tt
  ready_from-ge done i (t ∷ ts) =
      let rest : All (λ k. i ≤ k) (ready_from done (suc i) ts) =
        All-weaken (λ k h. omega (arith, h)) _ (ready_from-ge done (suc i) ts) in
      elim (Bool-cases (is_ready done i t)) [
        | inl ready ↦ rw ready (omega arith, rest)
        | inr waiting ↦ rw waiting rest
      ]

  batch-ge :
      (idx : ℕ) (results : List TaskResult)
      → All (λ k. idx ≤ k) (get_parallel_batch tasks idx results)
  unfolding get_parallel_batch
  batch-ge idx results = elim (Bool-cases (has_deps tasks)) [
    | inl deps ↦ rw deps (or_single-ge idx _ (ready_from-ge _ idx (drop idx tasks)))
    | inr plain ↦ rw plain (omega arith, tt)
  ]

  executes-ge : (s : Progress) → All (λ k. s.current_task_index ≤ k) (executes perform tasks s)
  unfolding executes
  executes-ge s = elim (Bool-cases (leb (length tasks) s.current_task_index)) [
    | inl over ↦ rw over tt
    | inr inside ↦
        rw inside (chosen-ge s.current_task_index _ (batch-ge s.current_task_index s.task_results))
  ]

  advanced-ge :
      (s : Progress) (ks : List ℕ)
      → All (λ k. s.current_task_index ≤ k) ks
      → s.current_task_index ≤ (advanced perform tasks s ks).current_task_index
  advanced-ge s [] h = omega arith
  advanced-ge s (k ∷ ks) (h, _) = omega (arith, h, max_from-ge k ks)

  advanced-gt :
      (s : Progress) (ks : List ℕ)
      → All (λ k. s.current_task_index ≤ k) ks
      → ks ≢ []
      → s.current_task_index < (advanced perform tasks s ks).current_task_index
  advanced-gt s [] h n = absurd (n refl)
  advanced-gt s (k ∷ ks) (h, _) n = omega (arith, h, max_from-ge k ks)

  executes-nil_iff :
      (s : Progress) → (executes perform tasks s ≡ []) ↔ (length tasks ≤ s.current_task_index)
  unfolding executes
  executes-nil_iff s = elim (Bool-cases (leb (length tasks) s.current_task_index)) [
    | inl over ↦ rw over (λ h. ground arith, λ h. refl)
    | inr inside ↦ rw inside (
      λ h. absurd (
          chosen-nonempty s.current_task_index
            (get_parallel_batch tasks s.current_task_index s.task_results) h),
      λ h. absurd (ground (arith, inside, h)),
    )
  ]

  pub run-ge : (s : Progress) → s.current_task_index ≤ (run perform tasks s).current_task_index
  unfolding run
  run-ge s = advanced-ge s (executes perform tasks s) (executes-ge s)

  pub run-gt :
      (s : Progress)
      → s.current_task_index < length tasks
      → s.current_task_index < (run perform tasks s).current_task_index
  unfolding run
  run-gt s inside =
      advanced-gt s (executes perform tasks s) (executes-ge s)
        (λ h. absurd (omega (arith, inside, (executes-nil_iff s).0 h)))

  -- As many rounds as there are subtasks from the current one on bring the current index to the
  -- end of the plan.
  pub after_rounds-end :
      (n : ℕ) (s : Progress)
      → length tasks ≤ s.current_task_index + n
      → length tasks ≤ (after_rounds perform tasks n s).current_task_index
  unfolding after_rounds
  after_rounds-end zero s h = omega (arith, h)
  after_rounds-end (suc n) s h = elim (Bool-cases (leb (length tasks) s.current_task_index)) [
    | inl over ↦ after_rounds-end n (run perform tasks s) (ground (arith, over, run-ge s))
    | inr inside ↦ after_rounds-end n (run perform tasks s) (ground (arith, h, inside, run-gt s))
  ]

  rounds-ge :
      (n : ℕ) (s : Progress) → All (λ k. s.current_task_index ≤ k) (rounds perform tasks n s)
  unfolding rounds
  rounds-ge zero s = tt
  rounds-ge (suc n) s =
      All-append _ (executes perform tasks s) _ (executes-ge s)
        (All-weaken (λ k h. omega (arith, h, run-ge s)) _ (rounds-ge n (run perform tasks s)))

  -- A subtask that a round does not execute and moves past is not executed by any number of rounds
  -- from there on.
  pub rounds-skip :
      (n : ℕ) (s : Progress) (j : ℕ)
      → All (λ k. k ≢ j) (executes perform tasks s)
      → j < (run perform tasks s).current_task_index
      → All (λ k. k ≢ j) (rounds perform tasks (suc n) s)
  unfolding rounds
  rounds-skip n s j avoids past = All-append _ (executes perform tasks s) _ avoids (
      All-weaken (λ k h e. absurd (omega (arith, h, past, e))) _
        (rounds-ge n (run perform tasks s)))
