-- ===== src/Retries/Tests.antt =====
-- The aggregation on small groups.
use harness_auto_test_eviden.Prelude.{false, none, some, List, [], ◌∷◌, ◌≡◌, refl}
use harness_auto_test_eviden.Retries.{
  Texts, Execution, stable_passed, inconclusive, aggregate_group, conclude, sorted_executions,
  insert, key_precedes, retry_of, group_issues, shard_totals, sorted_set, add_sorted, has_gap,
  attempts_of, attempt_result, attempt_issues, shard_total, valid_shards, status_issues,
  effective_status, aggregate_status,
}
use harness_auto_test_eviden.Retries.Soundness.{IsStable, stable_passed-IsStable}

abbrev plain_texts : Texts
plain_texts = record { lower = λ s. s; precedes = λ a b. false }

abbrev first_shard : Execution
first_shard = record {
  id = "e1";
  status = some "passed";
  would_run = false;
  flaky = false;
  retry_index = none;
  attempt_index = none;
  retry_count = 0;
  shard_index = some 0;
  shard_total = some 2;
  shard_count = none;
}

abbrev second_shard : Execution
second_shard = record first_shard { id = "e2"; shard_index = some 1 }

abbrev two_shards : List Execution
two_shards = second_shard ∷ first_shard ∷ []

two_shards_pass : (aggregate_group plain_texts two_shards).aggregate_status ≡ stable_passed
unfolding aggregate_group conclude sorted_executions insert key_precedes retry_of group_issues
    shard_totals sorted_set add_sorted has_gap attempts_of attempt_result attempt_issues shard_total
    valid_shards status_issues effective_status aggregate_status
two_shards_pass = refl

one_shard_fails : (aggregate_group plain_texts (first_shard ∷ [])).aggregate_status ≡ inconclusive
unfolding aggregate_group conclude sorted_executions insert key_precedes retry_of group_issues
    shard_totals sorted_set add_sorted has_gap attempts_of attempt_result attempt_issues shard_total
    valid_shards status_issues effective_status aggregate_status
one_shard_fails = refl

stable_passed-IsStable_example : IsStable plain_texts two_shards
stable_passed-IsStable_example = stable_passed-IsStable plain_texts two_shards two_shards_pass
