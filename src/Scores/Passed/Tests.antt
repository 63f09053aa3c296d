-- ===== src/Scores/Passed/Tests.antt =====
-- A bundle with full marks for its determinism: one test that has passed twice.
use harness_auto_test_eviden.Prelude.{true, false, ◌≡◌, refl, inl, inr}
use harness_auto_test_eviden.Retries.{
  aggregate_group, conclude, sorted_executions, insert, key_precedes, retry_of, group_issues,
  shard_totals, sorted_set, add_sorted, has_gap, attempts_of, attempt_result, attempt_issues,
  shard_total, valid_shards, status_issues, effective_status, aggregate_status,
}
use harness_auto_test_eviden.CodePoints.{before}
use harness_auto_test_eviden.Retries.Grouping.{build_aggregates}
use harness_auto_test_eviden.Retries.Grouping.Samples.{
  plain_texts, plain_digests, test_node, first_run, evidence_edge, passed_bundle, one_group,
  first-Occurs, test-Occurs,
}
use harness_auto_test_eviden.Scores.{Report, Provenance, determinism_score, score_dimensions}
use harness_auto_test_eviden.Scores.Passed.{
  determinism_of, IsPassed, IsCovered, full_determinism-IsPassed, full_determinism-IsCovered,
}

abbrev report : Report
report = record { run_id = "7"; missing_execution = false; has_unsupported = false }

abbrev provenance : Provenance
provenance = record { has_run_id = true; has_issues = false; artifact_count = 1 }

full_marks : determinism_of plain_texts plain_digests passed_bundle report provenance ≡ 5
unfolding build_aggregates score_dimensions determinism_score aggregate_group conclude
    sorted_executions insert key_precedes retry_of group_issues shard_totals sorted_set add_sorted
    has_gap attempts_of attempt_result attempt_issues shard_total valid_shards status_issues
    effective_status aggregate_status before
full_marks = rw one_group refl

full_determinism-IsPassed_example : IsPassed plain_texts first_run
full_determinism-IsPassed_example =
    full_determinism-IsPassed plain_texts plain_digests passed_bundle report provenance full_marks
      test_node first_run (evidence_edge "r0") test-Occurs first-Occurs (inr (inl refl)) refl refl
      refl

full_determinism-IsCovered_example : IsCovered plain_texts plain_digests passed_bundle test_node
full_determinism-IsCovered_example =
    full_determinism-IsCovered plain_texts plain_digests passed_bundle report provenance full_marks
      test_node test-Occurs
