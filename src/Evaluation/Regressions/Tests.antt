-- ===== src/Evaluation/Regressions/Tests.antt =====
-- A run that passes as its baseline did, and one that has lost its records.
use harness_auto_test_eviden.Prelude.{◌+◌, ◌/◌, false, none, some, [], ◌∷◌, ◌≡◌, refl, ◌↔◌}
use harness_auto_test_eviden.Evaluation.Regressions.{
  RunEvaluation, Ratios, status_regression, record_count_collapse, decision_order,
  decision_downgraded, record_count_collapsed, runtime_drifted, external_hold,
  compare_with_baseline, classify_regressions,
}
use harness_auto_test_eviden.Evaluation.Regressions.Reports.{IsClean, IsClean-iff}

abbrev default_ratios : Ratios
default_ratios = record { dropped = λ n. n / 2; drifted = λ n. n + n / 2 }

abbrev same_run : RunEvaluation
same_run = record {
  baseline_decision = some "pass";
  current_decision = some "eligible";
  baseline_record_count = some 10;
  current_record_count = some 5;
  baseline_runtime_ms = some 100;
  runtime_ms = some 150;
  baseline_failure_kind = none;
  failure_kind = none;
  current_failure_kind = none;
  ownership_scope = none;
  command_exit_code = some 0;
  timeout_recorded = false;
  timed_out = false;
}

clean : classify_regressions default_ratios same_run ≡ []
unfolding classify_regressions compare_with_baseline external_hold decision_downgraded
    decision_order record_count_collapsed runtime_drifted
clean = refl

collapsed :
    classify_regressions default_ratios
      (record same_run { current_decision = some "hold"; current_record_count = some 4 })
    ≡ status_regression ∷ record_count_collapse ∷ []
unfolding classify_regressions compare_with_baseline external_hold decision_downgraded
    decision_order record_count_collapsed runtime_drifted
collapsed = refl

IsClean-iff_example :
    (classify_regressions default_ratios same_run ≡ []) ↔ IsClean default_ratios same_run
IsClean-iff_example = IsClean-iff default_ratios same_run
