-- ===== src/Retries/Groups.antt =====
-- The checks that a group without issues has gone through, and what sorting its executions keeps
-- (retry_aggregation.py).
use harness_auto_test_eviden.Prelude.{
  ℕ, suc, is_empty, ◌≤◌, Bool, true, false, not, ◌&&◌, ◌||◌, List, [], ◌∷◌, ◌++◌, ◌≡◌, refl, ◌⊎◌,
  inl, inr, ◌==◌, ltb, all, length, if◌then◌else◌, All, Occurs, and_true, arith,
}
use harness_auto_test_eviden.Retries.{
  Texts, Execution, Issue, missing_execution_evidence, conflicting_shard_totals,
  unknown_shard_total, retry_sequence_gap, reported_retry_history_missing, shard_totals, Status,
  inconclusive, passed, failed, stable_passed, flaky_passed, flaky_failed, has_gap, last_or, when,
  key_precedes, insert, sorted_executions, attempt_result, of_retry, group_issues, attempts_of,
  attempts_issues, statuses_of, conclude, aggregate_status, is_passed, is_sharded,
}
use harness_auto_test_eviden.Retries.Attempts.{IsPassing, attempt-IsPassing, append_empty}

passed_status : (s : Status) → is_passed s ≡ true → s ≡ passed
passed_status passed h = refl
passed_status failed h = absurd (cc)
passed_status inconclusive h = absurd (cc)
passed_status stable_passed h = absurd (cc)
passed_status flaky_passed h = absurd (cc)
passed_status flaky_failed h = absurd (cc)

module _ (texts : Texts) where
  -- Sorting loses and adds no execution.
  insert-Occurs :
      (a e : Execution) (xs : List Execution) → (a ≡ e) ⊎ Occurs a xs → Occurs a (insert texts e xs)
  unfolding insert
  insert-Occurs a e [] h = h
  insert-Occurs a e (x ∷ xs) h = by_test (key_precedes texts x e) (λ o. insert-Occurs a e xs o) h
    where
      by_test :
          (b : Bool)
          → ((a ≡ e) ⊎ Occurs a xs → Occurs a (insert texts e xs))
          → (a ≡ e) ⊎ Occurs a (x ∷ xs)
          → Occurs a (if b then x ∷ insert texts e xs else e ∷ x ∷ xs)
      by_test true r (inl q) = inr (r (inl q))
      by_test true r (inr (inl q)) = inl q
      by_test true r (inr (inr o)) = inr (r (inr o))
      by_test false r h = h

  Occurs-insert :
      (a e : Execution) (xs : List Execution) → Occurs a (insert texts e xs) → (a ≡ e) ⊎ Occurs a xs
  unfolding insert
  Occurs-insert a e [] h = h
  Occurs-insert a e (x ∷ xs) h = by_test (key_precedes texts x e) (λ o. Occurs-insert a e xs o) h
    where
      by_test :
          (b : Bool)
          → (Occurs a (insert texts e xs) → (a ≡ e) ⊎ Occurs a xs)
          → Occurs a (if b then x ∷ insert texts e xs else e ∷ x ∷ xs)
          → (a ≡ e) ⊎ Occurs a (x ∷ xs)
      by_test true r (inl q) = inr (inl q)
      by_test true r (inr o) = elim (r o) [ inl q ↦ inl q | inr o' ↦ inr (inr o') ]
      by_test false r h = h

  pub sorted-Occurs :
      (a : Execution) (xs : List Execution) → Occurs a xs → Occurs a (sorted_executions texts xs)
  unfolding sorted_executions
  sorted-Occurs a (x ∷ xs) (inl q) = insert-Occurs a x _ (inl q)
  sorted-Occurs a (x ∷ xs) (inr o) = insert-Occurs a x _ (inr (sorted-Occurs a xs o))
  sorted-Occurs a [] o = absurd o

  pub Occurs-sorted :
      (a : Execution) (xs : List Execution) → Occurs a (sorted_executions texts xs) → Occurs a xs
  unfolding sorted_executions
  Occurs-sorted a [] o = o
  Occurs-sorted a (x ∷ xs) o = elim (Occurs-insert a x _ o) [
    | inl q ↦ inl q
    | inr o' ↦ inr (Occurs-sorted a xs o')
  ]

  pub sorted-inhabited :
      (es : List Execution) → is_empty (sorted_executions texts es) ≡ false → is_empty es ≡ false
  unfolding sorted_executions
  sorted-inhabited [] h = absurd (cc)
  sorted-inhabited (e ∷ es) h = refl

  -- What the group must be: each attempt, the order of the attempts, and the flags.
  pub attempts-IsPassing :
      (rs : List ℕ) (executions : List Execution) (total : ℕ) (sharded : Bool)
      → is_empty (attempts_issues (attempts_of texts rs executions total sharded)) ≡ true
      → all is_passed (statuses_of (attempts_of texts rs executions total sharded)) ≡ true
      → All (λ r. IsPassing texts total sharded (of_retry r executions)) rs
  unfolding attempts_of
  attempts-IsPassing [] executions total sharded h s = tt
  attempts-IsPassing (r ∷ rs) executions total sharded h s =
      let (n, ns) =
        append_empty (attempt_result texts r (of_retry r executions) total sharded).1
          (attempts_issues (attempts_of texts rs executions total sharded)) h in
      let (p, ps) = and_true _ _ s in
      (
        attempt-IsPassing texts r total sharded (of_retry r executions) n (passed_status _ p),
        attempts-IsPassing rs executions total sharded ns ps,
      )

-- The tests of _aggregate_status that lead to stable_passed.
choice_passed :
    (a b c d : Bool)
    → (if a
        then inconclusive
        else if b
        then stable_passed
        else if c
        then failed
        else if d
        then flaky_passed
        else flaky_failed)
      ≡ stable_passed
    → b ≡ true
choice_passed true b c d h = absurd (cc)
choice_passed false true c d h = refl
choice_passed false false true d h = absurd (cc)
choice_passed false false false true h = absurd (cc)
choice_passed false false false false h = absurd (cc)

pub aggregate-passed :
    (statuses : List Status)
    → aggregate_status statuses ≡ stable_passed
    → (all is_passed statuses ≡ true) × (is_empty statuses ≡ false)
unfolding aggregate_status
aggregate-passed [] h = absurd (cc)
aggregate-passed (s ∷ ss) h = (choice_passed _ _ _ _ h, refl)

pub passes_if_empty :
    (b : Bool) (s : Status)
    → (if not b then inconclusive else s) ≡ stable_passed
    → (b ≡ true) × (s ≡ stable_passed)
passes_if_empty true s h = (refl, h)
passes_if_empty false s h = absurd (cc)

pub conclude-passed :
    (flaky : Bool) (status : Status) (issues : List Issue)
    → (conclude flaky status issues).0 ≡ stable_passed
    → (flaky ≡ false) × (status ≡ stable_passed)
unfolding conclude
conclude-passed true stable_passed issues h = absurd (cc)
conclude-passed true inconclusive issues h = absurd (cc)
conclude-passed true passed issues h = absurd (cc)
conclude-passed true failed issues h = absurd (cc)
conclude-passed true flaky_passed issues h = absurd (cc)
conclude-passed true flaky_failed issues h = absurd (cc)
conclude-passed false status issues h = (refl, h)

pub no_gap :
    (n : ℕ) (ns : List ℕ)
    → has_gap (n ∷ ns) ≡ false
    → (n ≡ 0) × (suc (last_or n ns) ≤ length (n ∷ ns))
unfolding has_gap
no_gap n ns h = ground arith

two_empty :
    (a b : Bool) (i j : Issue) (xs ys : List Issue)
    → is_empty (when a i ++ xs ++ when b j ++ ys) ≡ true
    → (a ≡ false) × (b ≡ false)
two_empty true b i j xs ys h = absurd (cc)
two_empty false true i j xs ys h =
    let (h', _) = append_empty (xs ++ j ∷ []) ys h in
    let (_, h'') = append_empty xs (j ∷ []) h' in absurd (cc (h''))
two_empty false false i j xs ys h = (refl, refl)

-- The checks of the group that an empty list of issues leaves.
pub group_checks :
    (executions : List Execution) (indices : List ℕ) (declared : ℕ)
    → is_empty (group_issues executions indices declared) ≡ true
    → (is_empty executions ≡ false) × (has_gap indices ≡ false)
unfolding group_issues
group_checks executions indices declared h =
    two_empty (is_empty executions) (has_gap indices) missing_execution_evidence retry_sequence_gap
      (if ltb 1 (length (shard_totals executions))
        then conflicting_shard_totals ∷ []
        else when (is_sharded executions && (length (shard_totals executions) == 0))
            unknown_shard_total)
      (when (not (declared == 0) && (is_empty indices || ltb (last_or 0 indices) declared))
        (reported_retry_history_missing declared))
      h
