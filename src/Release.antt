-- ===== src/Release.antt =====
-- Release channels and the policy of migrations (src/hate/release_channel.py): the normalized
-- matrix, its findings and the status of the report. Messages, and the values of artifacts, notes
-- and compatibility matrices beyond their presence, are left out.
pub mod Policy
mod Tests
use harness_auto_test_eviden.Prelude.{
  String, Bool, true, false, not, ◌&&◌, Option, none, some, List, [], ◌∷◌, all, get_or, ◌===◌,
  member, or_text, is_empty, if◌then◌else◌,
}

abbrev pub release_channels : List String
release_channels = "experimental" ∷ "preview" ∷ "stable" ∷ "long-term" ∷ []

abbrev pub change_types : List String
change_types = "patch" ∷ "minor" ∷ "major" ∷ "breaking" ∷ []

abbrev pub release_gates : List String
release_gates = "RG-1" ∷ "RG-2" ∷ "RG-3" ∷ "RG-4" ∷ "RG-5" ∷ "RG-6" ∷ "RG-7" ∷ "RG-8" ∷ []

-- The keys of the input; none is a missing key. Artifacts go by the keys with a true value, the
-- notes by their keys.
pub record ReleaseInput : Type 0 where
  pub change_type : Option String
  pub channel : Option String
  pub migration_required : Option Bool
  pub migration_plan : Option Bool
  pub rollback_plan : Option Bool
  pub deprecation_notice : Option Bool
  pub migration_artifacts : List String
  pub release_gates : List String
  pub release_notes : List String
  pub previous_stable_safe_reject : Option Bool
  pub qeg_compatibility : Option Bool

pub record Matrix : Type 0 where
  pub channel : String
  pub change_type : String
  pub migration_required : Bool
  pub migration_plan : Bool
  pub rollback_plan : Bool
  pub deprecation_notice : Bool
  pub migration_artifacts : List String
  pub release_gates : List String
  pub release_notes : List String
  pub previous_stable_safe_reject : Bool
  pub qeg_compatibility : Bool

pub record ReleaseReport : Type 0 where
  pub overall_status : String
  pub readiness_effect : String
  pub findings : List String

abbrev pub is_large : String → Bool
is_large change_type = member change_type ("major" ∷ "breaking" ∷ [])

abbrev pub default_channel : String → String
default_channel change_type = if change_type === "breaking" then "preview" else "stable"

-- The keys that complete release notes have; _default_release_notes has just these.
abbrev pub note_keys : List String
note_keys =
    "summary" ∷ "breaking_changes" ∷ "deprecated_fields" ∷ "migration_steps"
    ∷ "compatibility_matrix" ∷ "known_issues" ∷ "security_notes" ∷ "artifact_safety_changes"
    ∷ "qeg_compatibility" ∷ "rollback_instructions" ∷ []

abbrev pub artifact_keys : List String
artifact_keys = "migration_guide" ∷ "schema_diff" ∷ "replay_impact" ∷ "compatibility_matrix" ∷ []

abbrev pub or_default : List String → List String → List String
or_default [] d = d
or_default (x ∷ xs) d = x ∷ xs

-- _normalize_matrix; the order of the gates is not used.
unfoldable pub normalize_matrix : ReleaseInput → Matrix
normalize_matrix i =
    let change_type = or_text i.change_type "patch" in
    let required = get_or i.migration_required (is_large change_type) in
    record {
      channel = or_text i.channel (default_channel change_type);
      change_type = change_type;
      migration_required = required;
      migration_plan = get_or i.migration_plan (not required);
      rollback_plan = get_or i.rollback_plan false;
      deprecation_notice = get_or i.deprecation_notice (not (is_large change_type));
      migration_artifacts = i.migration_artifacts;
      release_gates = or_default i.release_gates release_gates;
      release_notes = or_default i.release_notes note_keys;
      previous_stable_safe_reject = get_or i.previous_stable_safe_reject true;
      qeg_compatibility = get_or i.qeg_compatibility true;
    }

unfoldable pub has_required_migration_artifacts : Matrix → Bool
has_required_migration_artifacts m =
    if not m.migration_required
    then true
    else all (λ k. member k m.migration_artifacts) artifact_keys

unfoldable pub release_notes_complete : List String → Bool
release_notes_complete notes = all (λ k. member k notes) note_keys

-- One check: its code in front of the findings of the later ones.
abbrev pub finding_if : Bool → String → List String → List String
finding_if b code rest = if b then code ∷ rest else rest

-- _findings_for
unfoldable pub findings_for : Matrix → List String
findings_for m = finding_if (not (member m.channel release_channels)) "release_unknown_channel" (
    finding_if (not (member m.change_type change_types)) "release_unknown_change_type" (
      finding_if (m.change_type === "breaking" && (m.migration_required && not m.migration_plan))
        "release_breaking_without_migration"
        (finding_if (m.migration_required && not (has_required_migration_artifacts m))
          "release_migration_artifact_missing"
          (finding_if (is_large m.change_type && not m.deprecation_notice)
            "release_deprecation_notice_missing"
            (finding_if (not m.rollback_plan) "release_rollback_plan_missing" (
              finding_if (not (all (λ g. member g m.release_gates) release_gates))
                "release_gate_evidence_missing"
                (finding_if (not m.previous_stable_safe_reject)
                  "release_previous_stable_safe_reject_missing"
                  (finding_if (not m.qeg_compatibility) "release_qeg_compatibility_missing" (
                    finding_if (not (release_notes_complete m.release_notes))
                      "release_notes_incomplete" [])))))))))

unfoldable pub build_release_channel_report : ReleaseInput → ReleaseReport
build_release_channel_report i =
    let findings = findings_for (normalize_matrix i) in
    record {
      overall_status = if is_empty findings then "pass" else "hold";
      readiness_effect = if is_empty findings then "none" else "hold";
      findings = findings;
    }
