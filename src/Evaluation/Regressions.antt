-- ===== src/Evaluation/Regressions.antt =====
-- The classification of regressions against a stored baseline
-- (src/hate/evaluation/regression_engine.py). Counts and durations are natural numbers, and
-- int(baseline * ratio), a product of floats, is a parameter for each ratio. Messages and evidence
-- are left out.
pub mod Reports
mod Tests
use harness_auto_test_eviden.Prelude.{
  ℕ, String, Bool, true, false, not, ◌&&◌, ◌||◌, Option, none, some, List, [], ◌∷◌, ◌++◌, ltb, leb,
  ◌==◌, ◌===◌, member, or_text, is_some, if◌then◌else◌,
}

-- The fields of the input; none is a missing key. Of an exit code only whether it is zero is read.
pub record RunEvaluation : Type 0 where
  pub baseline_decision : Option String
  pub current_decision : Option String
  pub baseline_record_count : Option ℕ
  pub current_record_count : Option ℕ
  pub baseline_runtime_ms : Option ℕ
  pub runtime_ms : Option ℕ
  pub baseline_failure_kind : Option String
  pub failure_kind : Option String
  pub current_failure_kind : Option String
  pub ownership_scope : Option String
  pub command_exit_code : Option ℕ
  pub timeout_recorded : Bool
  pub timed_out : Bool

-- int(baseline * record_drop_ratio) and int(baseline * runtime_drift_ratio)
pub record Ratios : Type 0 where
  pub dropped : ℕ → ℕ
  pub drifted : ℕ → ℕ

pub data Regression : Type 0 where
  external_hold_detected status_regression record_count_collapse : Regression
  runtime_drift failure_kind_new : Regression

-- DECISION_ORDER.get(decision, 0)
unfoldable pub decision_order : String → ℕ
decision_order d =
    if d === "hold"
    then 1
    else if d === "soft_gap"
    then 2
    else if d === "eligible" || d === "pass"
    then 3
    else 0

unfoldable pub decision_downgraded : String → String → Bool
decision_downgraded baseline current =
    if baseline === "" || current === ""
    then false
    else ltb (decision_order current) (decision_order baseline)

abbrev pub at_least_one : ℕ → ℕ
at_least_one n = if leb 1 n then n else 1

abbrev pub exit_failed : Option ℕ → Bool
exit_failed none = false
exit_failed (some code) = not (code == 0)

unfoldable pub external_hold : String → Option ℕ → Bool → String → Bool
external_hold current_decision exit_code timed_out failure_kind =
    member current_decision ("hold" ∷ "blocked" ∷ [])
    || (exit_failed exit_code || (timed_out || not (failure_kind === "")))

abbrev pub when_found : Bool → Regression → List Regression
when_found true r = r ∷ []
when_found false r = []

abbrev pub current_failure : RunEvaluation → String
current_failure d = or_text d.failure_kind (or_text d.current_failure_kind "")

abbrev pub has_baseline : RunEvaluation → Bool
has_baseline d =
    not (or_text d.baseline_decision "" === "")
    || (is_some d.baseline_record_count
        || (is_some d.baseline_runtime_ms || not (or_text d.baseline_failure_kind "" === "")))

abbrev pub is_external : RunEvaluation → Bool
is_external d = or_text d.ownership_scope "owned" === "external"

module _ (ratios : Ratios) where
  unfoldable pub record_count_collapsed : Option ℕ → Option ℕ → Bool
  record_count_collapsed (some baseline) (some current) =
      not (baseline == 0) && ltb current (at_least_one (ratios.dropped baseline))
  record_count_collapsed _ _ = false

  unfoldable pub runtime_drifted : Option ℕ → Option ℕ → Bool
  runtime_drifted (some baseline) (some current) =
      not (baseline == 0) && ltb (ratios.drifted baseline) current
  runtime_drifted _ _ = false

  unfoldable pub compare_with_baseline : RunEvaluation → List Regression
  compare_with_baseline d =
      when_found
        (decision_downgraded (or_text d.baseline_decision "") (or_text d.current_decision ""))
        status_regression
      ++ (when_found (record_count_collapsed d.baseline_record_count d.current_record_count)
            record_count_collapse
          ++ (when_found (runtime_drifted d.baseline_runtime_ms d.runtime_ms) runtime_drift
              ++ when_found
                  (not (current_failure d === "")
                    && not (current_failure d === or_text d.baseline_failure_kind ""))
                  failure_kind_new))

  -- classify_real_repo_regressions
  unfoldable pub classify_regressions : RunEvaluation → List Regression
  classify_regressions d =
      let hold =
        when_found
          (is_external d
            && external_hold (or_text d.current_decision "") d.command_exit_code
                (d.timeout_recorded || d.timed_out) (current_failure d))
          external_hold_detected in
      let compared = compare_with_baseline d in
      if is_external d && not (has_baseline d) then hold else hold ++ compared
