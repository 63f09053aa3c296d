-- ===== src/Release/Policy.antt =====
-- What a passing release report means (release_channel.py).
use harness_auto_test_eviden.Prelude.{
  String, Bool, true, false, not, ◌&&◌, List, ◌≡◌, refl, ◌⊎◌, inl, inr, all, All, all→All, member,
  is_empty, ◌===◌, if◌then◌else◌, arith, eq_iff,
}
use harness_auto_test_eviden.Release.{
  ReleaseInput, Matrix, release_channels, change_types, release_gates, artifact_keys, note_keys,
  is_large, normalize_matrix, has_required_migration_artifacts, release_notes_complete, finding_if,
  findings_for, build_release_channel_report,
}

-- A release as the policy wants it.
pub record IsReleasable (m : Matrix) : Type 0 where
  pub channel : member m.channel release_channels ≡ true
  pub change_type : member m.change_type change_types ≡ true
  pub planned :
      ((m.change_type === "breaking") ≡ false)
      ⊎ ((m.migration_required ≡ false) ⊎ (m.migration_plan ≡ true))
  pub artifacts :
      (m.migration_required ≡ false)
      ⊎ All (λ k. member k m.migration_artifacts ≡ true) artifact_keys
  pub announced : (is_large m.change_type ≡ false) ⊎ (m.deprecation_notice ≡ true)
  pub rollback : m.rollback_plan ≡ true
  pub gates : All (λ g. member g m.release_gates ≡ true) release_gates
  pub safe_reject : m.previous_stable_safe_reject ≡ true
  pub compatible : m.qeg_compatibility ≡ true
  pub notes : All (λ k. member k m.release_notes ≡ true) note_keys

none_found :
    (b : Bool) (code : String) (rest : List String)
    → is_empty (finding_if b code rest) ≡ true
    → (b ≡ false) × (is_empty rest ≡ true)
none_found true code rest h = absurd (cc (h))
none_found false code rest h = (refl, h)

holds : (b : Bool) → not b ≡ false → b ≡ true
holds b h = ground arith

either : (a b : Bool) → (a && not b) ≡ false → (a ≡ false) ⊎ (b ≡ true)
either true b h = inr (holds b h)
either false b h = inl refl

one_of : (a b c : Bool) → (a && (b && not c)) ≡ false → (a ≡ false) ⊎ ((b ≡ false) ⊎ (c ≡ true))
one_of true b c h = inr (either b c h)
one_of false b c h = inl refl

artifacts_there :
    (m : Matrix)
    → (m.migration_required && not (has_required_migration_artifacts m)) ≡ false
    → (m.migration_required ≡ false)
      ⊎ All (λ k. member k m.migration_artifacts ≡ true) artifact_keys
unfolding has_required_migration_artifacts
artifacts_there m h = by_required m.migration_required h
  where
    by_required :
        (b : Bool)
        → (b
            && not
                (if not b then true else all (λ k. member k m.migration_artifacts) artifact_keys))
          ≡ false
        → (b ≡ false) ⊎ All (λ k. member k m.migration_artifacts ≡ true) artifact_keys
    by_required true h =
        inr (all→All (λ k. member k m.migration_artifacts) artifact_keys (holds _ h))
    by_required false h = inl refl

clean-IsReleasable : (m : Matrix) → is_empty (findings_for m) ≡ true → IsReleasable m
unfolding findings_for release_notes_complete
clean-IsReleasable m h =
    let (a, h) = none_found (not (member m.channel release_channels)) _ _ h in
    let (b, h) = none_found (not (member m.change_type change_types)) _ _ h in
    let (c, h) =
      none_found (m.change_type === "breaking" && (m.migration_required && not m.migration_plan)) _
        _ h in
    let (d, h) =
      none_found (m.migration_required && not (has_required_migration_artifacts m)) _ _ h in
    let (e, h) = none_found (is_large m.change_type && not m.deprecation_notice) _ _ h in
    let (f, h) = none_found (not m.rollback_plan) _ _ h in
    let (g, h) = none_found (not (all (λ g. member g m.release_gates) release_gates)) _ _ h in
    let (i, h) = none_found (not m.previous_stable_safe_reject) _ _ h in
    let (j, h) = none_found (not m.qeg_compatibility) _ _ h in
    let (k, _) = none_found (not (release_notes_complete m.release_notes)) _ _ h in
    record {
      channel = holds _ a;
      change_type = holds _ b;
      planned = one_of _ _ _ c;
      artifacts = artifacts_there m d;
      announced = either _ _ e;
      rollback = holds _ f;
      gates = all→All (λ g. member g m.release_gates) release_gates (holds _ g);
      safe_reject = holds _ i;
      compatible = holds _ j;
      notes = all→All (λ k. member k m.release_notes) note_keys (holds _ k);
    }

-- Where the report of a release passes, its normalized matrix has a known channel and change type;
-- a migration plan if the change is of the type breaking and requires a migration; all migration
-- artifacts if a migration is required; a notice if the change is major or breaking; a rollback
-- plan, every release gate, a safe reject, compatibility, and complete notes.
pub pass-IsReleasable :
    (i : ReleaseInput)
    → (build_release_channel_report i).overall_status ≡ "pass"
    → IsReleasable (normalize_matrix i)
unfolding build_release_channel_report
pass-IsReleasable i h = clean-IsReleasable (normalize_matrix i) (clean _ h)
  where
    clean : (b : Bool) → ◌≡◌ {A = String} (if b then "pass" else "hold") "pass" → b ≡ true
    clean true h = refl
    clean false h = absurd (cc ((eq_iff "hold" "pass").1 h))
