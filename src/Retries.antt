-- ===== src/Retries.antt =====
-- The aggregation of retried and sharded test executions
-- (src/hate/p1a_internal/retry_aggregation.py, src/hate/execution_status.py): which issues a group
-- of executions has, the result of each attempt and the status of the group. str.lower and the
-- order of Python's strings are parameters.
mod Parts
pub mod Sets
pub mod Attempts
pub mod Groups
pub mod Soundness
pub mod Summary
pub mod Grouping
mod Tests
use harness_auto_test_eviden.Prelude.{
  ℕ, ◌+◌, ◌-◌, String, Bool, true, false, not, ◌&&◌, ◌||◌, Option, none, some, List, [], ◌∷◌, ◌++◌,
  map, ◌==◌, ltb, leb, ◌===◌, member, any, all, select, length, is_some, get_or, is_empty,
  if◌then◌else◌,
}
unfoldable pub use Parts.*

abbrev pub ids : List Execution → List String
ids es = map (λ (e : Execution). e.id) es

-- The executions of one retry, in the order of the sorted executions: by_retry[retry].
abbrev pub of_retry : ℕ → List Execution → List Execution
of_retry r executions = select (λ e. retry_of e == r) executions

abbrev pub is_sharded : List Execution → Bool
is_sharded executions =
    not (is_empty (shard_totals executions))
    || any (λ (e : Execution). is_some e.shard_index) executions

-- The issues of the group before its attempts are looked at.
unfoldable pub group_issues : List Execution → List ℕ → ℕ → List Issue
group_issues executions indices declared =
    let totals = length (shard_totals executions) in
    when (is_empty executions) missing_execution_evidence
    ++ (if ltb 1 totals
        then conflicting_shard_totals ∷ []
        else when (is_sharded executions && (totals == 0)) unknown_shard_total)
    ++ when (has_gap indices) retry_sequence_gap
    ++ when (not (declared == 0) && (is_empty indices || ltb (last_or 0 indices) declared))
        (reported_retry_history_missing declared)

abbrev pub attempts_issues : List (Attempt × List Issue) → List Issue
attempts_issues [] = []
attempts_issues ((a, issues) ∷ rest) = issues ++ attempts_issues rest

abbrev pub statuses_of : List (Attempt × List Issue) → List Status
statuses_of [] = []
statuses_of ((a, issues) ∷ rest) = a.status ∷ statuses_of rest

abbrev pub attempts_list : List (Attempt × List Issue) → List Attempt
attempts_list [] = []
attempts_list ((a, issues) ∷ rest) = a ∷ attempts_list rest

-- The status and the issues once the declared flakiness is compared with the history.
unfoldable pub conclude : Bool → Status → List Issue → Status × List Issue
conclude declared_flaky status issues =
    if declared_flaky && not (is_flaky status)
    then (inconclusive, issues ++ declared_flaky_without_mixed_history ∷ [])
    else (status, issues ++ when (is_flaky status) flaky_execution)

module _ (texts : Texts) where
  unfoldable pub effective_status : Execution → String
  effective_status e =
      if e.would_run then "inconclusive" else texts.lower (get_or e.status "unknown")

  -- sorted(executions, key=_execution_sort_key)
  unfoldable pub key_precedes : Execution → Execution → Bool
  key_precedes a b =
      ltb (retry_of a) (retry_of b) || (retry_of a == retry_of b) && texts.precedes a.id b.id

  unfoldable pub insert : Execution → List Execution → List Execution
  insert e [] = e ∷ []
  insert e (x ∷ xs) = let rest = insert e xs in if key_precedes x e then x ∷ rest else e ∷ x ∷ xs

  unfoldable pub sorted_executions : List Execution → List Execution
  sorted_executions [] = []
  sorted_executions (e ∷ es) = insert e (sorted_executions es)

  unfoldable pub status_issues : ℕ → List Execution → List Issue
  status_issues retry executions =
      let unexecuted = ids (select (λ (e : Execution). e.would_run) executions) in
      if not (is_empty unexecuted)
      then test_not_executed retry unexecuted ∷ []
      else when (any (λ e. not (is_result (effective_status e))) executions)
          (incomplete_execution_status retry)

  unfoldable pub attempt_issues : ℕ → List Execution → ℕ → Bool → List Issue
  attempt_issues retry executions total sharded =
      let shards = map (λ (e : Execution). e.shard_index) executions in
      let valid = length (valid_shards total shards) in
      when (has_duplicate shards) (duplicate_retry_shard retry)
      ++ when (sharded && any (λ s. not (is_some s)) shards) (missing_shard_index retry)
      ++ when (not (total == 0) && any (out_of_range total) shards) (shard_index_out_of_range retry)
      ++ when (not (total == 0) && ltb valid total) (missing_shards retry (total - valid))
      ++ status_issues retry executions

  -- _attempt_result
  unfoldable pub attempt_result : ℕ → List Execution → ℕ → Bool → Attempt × List Issue
  attempt_result retry executions total sharded =
      let issues = attempt_issues retry executions total sharded in
      let shards = map (λ (e : Execution). e.shard_index) executions in
      (
        record {
          retry = retry;
          status =
              if not (is_empty issues)
              then inconclusive
              else if any (λ e. is_failure (effective_status e)) executions
              then failed
              else passed;
          missing_shard = not (total == 0) && ltb (length (valid_shards total shards)) total;
          execution_node_ids = ids executions;
        },
        issues,
      )

  unfoldable pub attempts_of : List ℕ → List Execution → ℕ → Bool → List (Attempt × List Issue)
  attempts_of [] executions total sharded = []
  attempts_of (r ∷ rs) executions total sharded =
      attempt_result r (of_retry r executions) total sharded
      ∷ attempts_of rs executions total sharded

  -- _aggregate_group, without the names it copies from the group.
  unfoldable pub aggregate_group : List Execution → Aggregate
  aggregate_group group =
      let executions = sorted_executions group in
      let indices = sorted_set (map retry_of executions) in
      let declared = maximum (map (λ (e : Execution). e.retry_count) executions) in
      let total = shard_total executions in
      let results = attempts_of indices executions total (is_sharded executions) in
      let issues = group_issues executions indices declared ++ attempts_issues results in
      let flaky = any (λ (e : Execution). e.flaky) executions in
      let status =
        if not (is_empty issues) then inconclusive else aggregate_status (statuses_of results) in
      let (final, all_issues) = conclude flaky status issues in
      record {
        aggregate_status = final;
        issues = all_issues;
        attempt_results = attempts_list results;
        declared_flaky = flaky;
        declared_retry_count = declared;
        expected_count = total;
      }
