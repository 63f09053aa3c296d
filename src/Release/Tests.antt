-- ===== src/Release/Tests.antt =====
-- A patch release with a rollback plan, and one without.
use harness_auto_test_eviden.Prelude.{none, some, true, [], ◌≡◌, refl}
use harness_auto_test_eviden.Release.{
  ReleaseInput, build_release_channel_report, findings_for, normalize_matrix,
  has_required_migration_artifacts, release_notes_complete,
}
use harness_auto_test_eviden.Release.Policy.{IsReleasable, pass-IsReleasable}

abbrev patch : ReleaseInput
patch = record {
  change_type = none;
  channel = none;
  migration_required = none;
  migration_plan = none;
  rollback_plan = some true;
  deprecation_notice = none;
  migration_artifacts = [];
  release_gates = [];
  release_notes = [];
  previous_stable_safe_reject = none;
  qeg_compatibility = none;
}

patch_passes : (build_release_channel_report patch).overall_status ≡ "pass"
unfolding build_release_channel_report findings_for normalize_matrix
    has_required_migration_artifacts release_notes_complete
patch_passes = refl

plain_patch_holds :
    (build_release_channel_report (record patch { rollback_plan = none })).overall_status ≡ "hold"
unfolding build_release_channel_report findings_for normalize_matrix
    has_required_migration_artifacts release_notes_complete
plain_patch_holds = refl

pass-IsReleasable_example : IsReleasable (normalize_matrix patch)
pass-IsReleasable_example = pass-IsReleasable patch patch_passes
