-- ===== src/Retries/Attempts.antt =====
-- What an attempt that passed without an issue means (retry_aggregation.py).
use harness_auto_test_eviden.Prelude.{
  ℕ, suc, is_empty, ◌-◌, ◌≤◌, String, Bool, true, false, not, ◌&&◌, Option, none, some, List, [],
  ◌∷◌, ◌++◌, ◌≡◌, refl, ap, inl, inr, map, ◌==◌, ltb, any, select, length, is_some, if◌then◌else◌,
  All, Occurs, Occurs-select, any→All, or_false, arith, eq_iff,
}
use harness_auto_test_eviden.Retries.{
  Texts, Execution, Issue, test_not_executed, incomplete_execution_status, inconclusive, passed,
  failed, sorted_set, when, effective_status, status_issues, attempt_issues, attempt_result,
  valid_shards, present, is_result, is_failure, ids, has_duplicate, out_of_range,
  duplicate_retry_shard, missing_shard_index, shard_index_out_of_range, missing_shards,
}
use harness_auto_test_eviden.Retries.Sets.{sorted_set-IsAscending, Occurs-sorted_set, full_below}

pub append_empty :
    {A : Type 0} (xs ys : List A)
    → is_empty (xs ++ ys) ≡ true
    → (is_empty xs ≡ true) × (is_empty ys ≡ true)
append_empty [] ys h = (refl, h)
append_empty (x ∷ xs) ys h = absurd (cc)

pub when_empty : (b : Bool) (i : Issue) → is_empty (when b i) ≡ true → b ≡ false
when_empty true i h = absurd (cc)
when_empty false i h = refl

checks_empty :
    (a b c d : Bool) (i j k l : Issue) (rest : List Issue)
    → is_empty (when a i ++ when b j ++ when c k ++ when d l ++ rest) ≡ true
    → (b ≡ false) × (d ≡ false) × (is_empty rest ≡ true)
checks_empty true b c d i j k l rest h = absurd (cc)
checks_empty false true c d i j k l rest h = absurd (cc)
checks_empty false false true d i j k l rest h = absurd (cc)
checks_empty false false false true i j k l rest h = absurd (cc)
checks_empty false false false false i j k l rest h = (refl, refl, h)

true_of_not : (b : Bool) → not b ≡ false → b ≡ true
true_of_not true h = refl
true_of_not false h = absurd (cc)

some_shards :
    (es : List Execution)
    → any (λ o. not (is_some o)) (map (λ (e : Execution). e.shard_index) es) ≡ false
    → All (λ (e : Execution). is_some e.shard_index ≡ true) es
some_shards [] h = tt
some_shards (e ∷ es) h = let (a, b) = or_false _ _ h in (true_of_not _ a, some_shards es b)

present-Occurs : (s : ℕ) (os : List (Option ℕ)) → Occurs s (present os) → Occurs (some s) os
present-Occurs s [] o = o
present-Occurs s (none ∷ os) o = inr (present-Occurs s os o)
present-Occurs s (some n ∷ os) (inl q) = inl (ap some q)
present-Occurs s (some n ∷ os) (inr o) = inr (present-Occurs s os o)

unexecuted_empty :
    (es : List Execution)
    → is_empty (ids (select (λ (e : Execution). e.would_run) es)) ≡ true
    → All (λ (e : Execution). e.would_run ≡ false) es
unexecuted_empty [] h = tt
unexecuted_empty (e ∷ es) h = by_test e.would_run refl h (unexecuted_empty es)
  where
    by_test :
        (b : Bool)
        → e.would_run ≡ b
        → is_empty (
            ids (
              if b
              then e ∷ select (λ (e : Execution). e.would_run) es
              else select (λ (e : Execution). e.would_run) es))
          ≡ true
        → (is_empty (ids (select (λ (e : Execution). e.would_run) es)) ≡ true
            → All (λ (e : Execution). e.would_run ≡ false) es)
        → (e.would_run ≡ false) × All (λ (e : Execution). e.would_run ≡ false) es
    by_test true q h r = absurd (cc)
    by_test false q h r = (q, r h)

result_passed : (s : String) → is_result s ≡ true → is_failure s ≡ false → s ≡ "passed"
result_passed s r f = ground (arith, eq_iff s "passed")

status_passed :
    (a b : Bool)
    → (if not a then inconclusive else if b then failed else passed) ≡ passed
    → b ≡ false
status_passed true true h = absurd (cc)
status_passed true false h = refl
status_passed false b h = absurd (cc)

all_covered :
    (total : ℕ) (shards : List (Option ℕ))
    → (not (total == 0) && ltb (length (valid_shards total shards)) total) ≡ false
    → (s : ℕ) → suc s ≤ total
    → Occurs (some s) shards
unfolding valid_shards
all_covered total shards h s u =
    let numbers = select (λ i. ltb i total) (present shards) in
    present-Occurs s shards
      (Occurs-select (λ i. ltb i total) s (present shards)
        (Occurs-sorted_set s numbers (
          full_below total (sorted_set numbers) (sorted_set-IsAscending numbers)
            (λ n o.
              below n
                (Occurs-select (λ i. ltb i total) n (present shards)
                  (Occurs-sorted_set n numbers o)).1)
            (enough (length (sorted_set numbers)) h) s u))).0
  where
    below : (n : ℕ) → ltb n total ≡ true → suc n ≤ total
    below n t = ground arith

    enough : (n : ℕ) → (not (total == 0) && ltb n total) ≡ false → total ≤ n
    enough n f = ground arith

module _ (texts : Texts) where
  status_issues_empty :
      (retry : ℕ) (es : List Execution)
      → is_empty (status_issues texts retry es) ≡ true
      → All (λ (e : Execution). e.would_run ≡ false) es
        × (any (λ e. not (is_result (effective_status texts e))) es ≡ false)
  unfolding status_issues
  status_issues_empty retry es h =
      by_test (is_empty (ids (select (λ (e : Execution). e.would_run) es))) (unexecuted_empty es) h
    where
      by_test :
          (b : Bool)
          → (b ≡ true → All (λ (e : Execution). e.would_run ≡ false) es)
          → is_empty (
              if not b
              then test_not_executed retry (ids (select (λ (e : Execution). e.would_run) es)) ∷ []
              else when
                  (any (λ e. not (is_result (effective_status texts e))) es)
                  (incomplete_execution_status retry))
            ≡ true
          → All (λ (e : Execution). e.would_run ≡ false) es
            × (any (λ e. not (is_result (effective_status texts e))) es ≡ false)
      by_test true r h = (r refl, when_empty _ _ h)
      by_test false r h = absurd (cc)

  -- An attempt that passed: every execution ran and passed, each says its shard where the group
  -- is sharded, and every shard is there.
  pub record IsPassing (total : ℕ) (sharded : Bool) (executions : List Execution) : Type 0 where
    pub statuses : All (λ e. effective_status texts e ≡ "passed") executions
    pub executed : All (λ (e : Execution). e.would_run ≡ false) executions
    pub in_shards :
        sharded ≡ true → All (λ (e : Execution). is_some e.shard_index ≡ true) executions
    pub covered :
        (s : ℕ)
        → suc s ≤ total
        → Occurs (some s) (map (λ (e : Execution). e.shard_index) executions)

  pub attempt-IsPassing :
      (retry total : ℕ) (sharded : Bool) (executions : List Execution)
      → is_empty (attempt_result texts retry executions total sharded).1 ≡ true
      → (attempt_result texts retry executions total sharded).0.status ≡ passed
      → IsPassing total sharded executions
  unfolding attempt_result attempt_issues
  attempt-IsPassing retry total sharded executions n s =
      let shards = map (λ (e : Execution). e.shard_index) executions in
      let (unsharded, missing, rest) =
        checks_empty (has_duplicate shards) (sharded && any (λ o. not (is_some o)) shards)
          (not (total == 0) && any (out_of_range total) shards)
          (not (total == 0) && ltb (length (valid_shards total shards)) total)
          (duplicate_retry_shard retry) (missing_shard_index retry) (shard_index_out_of_range retry)
          (missing_shards retry (total - length (valid_shards total shards)))
          (status_issues texts retry executions) n in
      let (ran, results) = status_issues_empty retry executions rest in
      record {
        statuses =
            All-zip executions (any→All _ executions results)
              (any→All _ executions (status_passed _ _ s));
        executed = ran;
        in_shards = λ t. some_shards executions (tested t unsharded);
        covered = all_covered total shards missing;
      }
    where
      tested : {b : Bool} → sharded ≡ true → (sharded && b) ≡ false → b ≡ false
      tested {b} t h = ground arith

      All-zip :
          (es : List Execution)
          → All (λ e. not (is_result (effective_status texts e)) ≡ false) es
          → All (λ e. is_failure (effective_status texts e) ≡ false) es
          → All (λ e. effective_status texts e ≡ "passed") es
      All-zip [] h g = tt
      All-zip (e ∷ es) (h, hs) (g, gs) = (result_passed _ (true_of_not _ h) g, All-zip es hs gs)
