-- ===== src/Retries/Summary.antt =====
-- The summary of the aggregates of a run (_build_retry_aggregation of retry_aggregation.py),
-- without matrix_group_count.
use harness_auto_test_eviden.Prelude.{ℕ, ◌+◌, Bool, true, false, List, [], ◌∷◌, any, select, length}
use harness_auto_test_eviden.Retries.{Status, inconclusive, Attempt, Aggregate, is_flaky}

abbrev pub is_inconclusive : Status → Bool
is_inconclusive inconclusive = true
is_inconclusive _ = false

-- item["shards"]["missing"]
abbrev pub misses_shard : Aggregate → Bool
misses_shard item = any (λ (a : Attempt). a.missing_shard) item.attempt_results

-- The length of the list of all issues.
abbrev pub count_issues : List Aggregate → ℕ
count_issues [] = 0
count_issues (item ∷ items) = length item.issues + count_issues items

pub record Summary : Type 0 where
  pub aggregate_count : ℕ
  pub flaky_count : ℕ
  pub declared_flaky_count : ℕ
  pub inconclusive_count : ℕ
  pub missing_shard_count : ℕ
  pub issue_count : ℕ

abbrev pub summarize : List Aggregate → Summary
summarize aggregates = record {
  aggregate_count = length aggregates;
  flaky_count = length (select (λ item. is_flaky item.aggregate_status) aggregates);
  declared_flaky_count = length (select (λ (item : Aggregate). item.declared_flaky) aggregates);
  inconclusive_count = length (select (λ item. is_inconclusive item.aggregate_status) aggregates);
  missing_shard_count = length (select misses_shard aggregates);
  issue_count = count_issues aggregates;
}
