-- ===== src/Evaluation/Baseline/Tests.antt =====
-- A baseline that is approved, frozen and replaced.
use harness_auto_test_eviden.Prelude.{String, true, none, some, List, [], ◌∷◌, ◌++◌, ◌≡◌, refl}
use harness_auto_test_eviden.CodePoints.{before}
use harness_auto_test_eviden.Evaluation.Baseline.{
  RawEvent, event_type_of, absorb, absorb_all, expire, suspend, reduce_events,
  findings_for_projection, baseline_report, build_baseline_report,
}
use harness_auto_test_eviden.Evaluation.Baseline.Serving.{IsGoverned, serves-IsGoverned}

abbrev raw_event : String → String → RawEvent
raw_event type run = record {
  event_type = some type;
  baseline_id = some "b";
  repo_id = some "r";
  suite_id = none;
  baseline_run_id = some run;
  actor = none;
  reason = none;
  approved_by = none;
  expires_at = none;
  policy_hash = none;
  ownership_scope = none;
}

abbrev frozen_events : List RawEvent
frozen_events = raw_event "approved" "run-1" ∷ raw_event "frozen" "run-1" ∷ []

abbrev dated_approval : RawEvent
dated_approval = record (raw_event "approved" "run-2") { expires_at = some "2027-01-01" }

-- The frozen baseline is replaced without a superseded event, and serves.
replaced_serves :
    (build_baseline_report
      (frozen_events ++ (dated_approval ∷ raw_event "frozen" "run-2" ∷ []))
      "2026-01-01").can_use_for_regression
    ≡ true
unfolding event_type_of before baseline_report reduce_events absorb_all absorb expire suspend
    findings_for_projection
replaced_serves = refl

frozen_serves : (build_baseline_report frozen_events "2026-01-01").can_use_for_regression ≡ true
unfolding event_type_of before baseline_report reduce_events absorb_all absorb expire suspend
    findings_for_projection
frozen_serves = refl

-- An external approval counts as owned after a later event without a scope.
external_serves :
    (build_baseline_report
      (record (raw_event "approved" "run-1") { ownership_scope = some "external" }
        ∷ raw_event "frozen" "run-1"
        ∷ [])
      "2026-01-01").can_use_for_regression
    ≡ true
unfolding event_type_of before baseline_report reduce_events absorb_all absorb expire suspend
    findings_for_projection
external_serves = refl

serves-IsGoverned_example : IsGoverned frozen_events "2026-01-01"
serves-IsGoverned_example = serves-IsGoverned frozen_events "2026-01-01" frozen_serves
