-- ===== src/Worker/Verdicts.antt =====
-- What the decision of a worker report says about its job (runtime_worker.py).
use harness_auto_test_eviden.Prelude.{
  ℕ, suc, ◌≤◌, String, Bool, true, false, ◌&&◌, ◌||◌, List, [], ◌∷◌, ◌++◌, ◌≡◌, ◌≢◌, refl, ◌⊎◌, inl,
  inr, ltb, ◌===◌, member, is_empty, if◌then◌else◌, Bool-cases, by_test, arith, eq_iff, and_true,
}
use harness_auto_test_eviden.Worker.{
  Naming, JobState, Input, Decision, add_artifact, apply_error, complete, decision_for_job,
  evaluate_worker, first_code, decision_by, retryable, build_initial_job, run_job,
}

snoc_inhabited : {A : Type 0} (xs : List A) (x : A) → is_empty (xs ++ x ∷ []) ≡ false
snoc_inhabited [] x = refl
snoc_inhabited (y ∷ xs) x = refl

differs : (s t : String) → (s === t) ≡ false → s ≡ t → ⊥
differs s t f q = absurd (cc (f, (eq_iff s t).1 q))

-- The statuses of a job that ended well.
abbrev good : List String
good = "succeeded" ∷ "cancelled" ∷ "succeeded_with_quarantine" ∷ []

passed_good :
    (job : JobState)
    → (decision_for_job job).status ≡ "pass"
    → (job.findings ≡ []) × (member job.status good ≡ true)
unfolding decision_for_job
passed_good job h = by_findings job.findings h
  where
    by_findings :
        (codes : List String)
        → (decision_by (first_code codes) job.status).status ≡ "pass"
        → (codes ≡ []) × (member job.status good ≡ true)
    by_findings (c ∷ cs) h = absurd (differs "hold" "pass" refl h)
    by_findings [] h = (
      refl,
      by_test (λ (d : Decision). d.status ≡ "pass" → member job.status good ≡ true)
          (member job.status good) _ _ (λ t _. t) (λ f g. absurd (differs "hold" "pass" refl g)) h,
    )

module _ (naming : Naming) where
  completed :
      (job : JobState)
      → (complete naming job).status ≡ "succeeded"
      → is_empty (complete naming job).artifacts ≡ false
  unfolding complete
  completed job h = by_artifact (job.status === "succeeded" && is_empty job.artifacts) job refl h
    where
      by_artifact :
          (b : Bool) (job : JobState)
          → (job.status === "succeeded" && is_empty job.artifacts) ≡ b
          → (add_artifact naming b job "safe" "standard").status ≡ "succeeded"
          → is_empty (add_artifact naming b job "safe" "standard").artifacts ≡ false
      by_artifact true job e h = snoc_inhabited job.artifacts _
      by_artifact false job e h = other _ (is_empty job.artifacts) ((eq_iff _ _).1 h) e
        where
          other : (x y : Bool) → x ≡ true → (x && y) ≡ false → y ≡ false
          other x y t f = ground arith

  -- Where the report of a job passes, the job has no finding, it is in one of the three good final
  -- statuses, and if it succeeded it has an artifact.
  pub pass-IsGood :
      (i : Input)
      → (evaluate_worker naming i).1.status ≡ "pass"
      → (let job = (evaluate_worker naming i).0 in
          (job.findings ≡ [])
          × (member job.status ("succeeded" ∷ "cancelled" ∷ "succeeded_with_quarantine" ∷ [])
              ≡ true)
          × (((job.status === "succeeded") ≡ false) ⊎ (is_empty job.artifacts ≡ false)))
  unfolding evaluate_worker
  pass-IsGood i h =
      let ran : JobState =
        if is_empty (build_initial_job naming i).findings
        then run_job naming (build_initial_job naming i) i
        else build_initial_job naming i in
      let (clean, ended) = passed_good (complete naming ran) h in
      (
        clean,
        ended,
        elim (Bool-cases ((complete naming ran).status === "succeeded")) [
          | inl t ↦ inr (completed ran ((eq_iff _ _).0 t))
          | inr f ↦ inl f
        ],
      )

  -- An error puts a job back into the queue's waiting state only where the error is retryable and
  -- attempts are left; otherwise a job that was not waiting does not wait.
  error-waits :
      (job : JobState) (error : String) (max_attempts : ℕ)
      → job.status ≢ "retry_wait"
      → (apply_error naming job error max_attempts).status ≡ "retry_wait"
      → (retryable error ≡ true) × (suc job.attempts ≤ max_attempts)
  unfolding apply_error
  error-waits job error max_attempts n h =
      let Waits : JobState → Type 0 = λ j.
        j.status ≡ "retry_wait" → (retryable error ≡ true) × (suc job.attempts ≤ max_attempts) in
      by_test Waits (retryable error && ltb job.attempts max_attempts) _ _
        (λ t _. let (r, l) = and_true _ _ t in (r, below job.attempts max_attempts l))
        (λ _.
          by_test Waits (member error ("invariant_violation" ∷ [])) _ _ (λ _ w. absurd (cc (w)))
            (λ _.
              by_test Waits (member error ("schema_invalid_input" ∷ []) || retryable error) _ _
                (λ _ w. absurd (cc (w)))
                (λ _.
                  by_test Waits (error === "unsafe_artifact") _ _ (λ _ w. absurd (cc (w)))
                    (λ _ w. absurd (n w)))))
        h
    where
      below : (a b : ℕ) → ltb a b ≡ true → suc a ≤ b
      below a b t = ground arith
