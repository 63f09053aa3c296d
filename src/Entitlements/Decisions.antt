-- ===== src/Entitlements/Decisions.antt =====
-- When an entitlement passes, and what it does not depend on (entitlement.py).
use harness_auto_test_eviden.Prelude.{
  ℕ, String, Bool, true, false, not, ◌&&◌, ◌||◌, Option, List, ◌++◌, ◌≡◌, refl, ◌⊎◌, ◌↔◌, any,
  select, ◌===◌, if◌then◌else◌, arith, eq_iff, sym, ◌∙◌,
}
use harness_auto_test_eviden.Entitlements.{
  Claimed, found, is_denial, is_grave, is_below, is_local_first, findings_of, evaluate_entitlement,
}

-- The status by the four tests that it rests on.
status_ways :
    (below exempt precheck qeg : Bool)
    → ((if any is_grave (
            (if exempt
              then select (λ f. not (is_denial f)) (found below "entitlement_feature_denied" "high")
              else found below "entitlement_feature_denied" "high")
            ++ found precheck "entitlement_precheck_override_denied" "critical"
            ++ found qeg "entitlement_qeg_override_denied" "critical")
          then "hold"
          else "pass")
        === "pass")
      ≡ ((not below || exempt) && (not precheck && not qeg))
status_ways true true true true = refl
status_ways true true true false = refl
status_ways true true false true = refl
status_ways true true false false = refl
status_ways true false true true = refl
status_ways true false true false = refl
status_ways true false false true = refl
status_ways true false false false = refl
status_ways false true true true = refl
status_ways false true true false = refl
status_ways false true false true = refl
status_ways false true false false = refl
status_ways false false true true = refl
status_ways false false true false = refl
status_ways false false false true = refl
status_ways false false false false = refl

-- An entitlement passes exactly where the plan's edition is not below the required one, or the
-- feature is a local-first one in local-first mode on a local plan, and neither the precheck decision nor the verdict
-- is to be overridden.
pub pass_iff :
    (fold : String → String) (c : Claimed)
    → ((evaluate_entitlement fold c).status ≡ "pass") ↔ (
        ((is_below fold c ≡ false) ⊎ (is_local_first fold c ≡ true))
        × (c.precheck_decision_override ≡ false)
        × (c.qeg_verdict_override ≡ false))
unfolding evaluate_entitlement findings_of
pass_iff fold c =
    let status = (evaluate_entitlement fold c).status in
    let ways =
      status_ways (is_below fold c) (is_local_first fold c) c.precheck_decision_override
        c.qeg_verdict_override in
    let tests =
      four_tests (is_below fold c) (is_local_first fold c) c.precheck_decision_override
        c.qeg_verdict_override in
    (
      (λ h. tests.0 (sym ways ∙ (eq_iff status "pass").1 h)),
      (λ h. (eq_iff status "pass").0 (ways ∙ tests.1 h)),
    )
  where
    four_tests :
        (a b p q : Bool)
        → (((not a || b) && (not p && not q)) ≡ true)
          ↔ (((a ≡ false) ⊎ (b ≡ true)) × (p ≡ false) × (q ≡ false))
    four_tests a b p q = ground arith

-- Neither the usage, nor the limits, nor the flag of an exceeded limit changes the status, the
-- readiness effect or the findings: a limit warns and never blocks.
pub usage-warns :
    (fold : String → String) (c : Claimed) (over : Bool) (usage limits : List (String × Option ℕ))
    → (let d = evaluate_entitlement fold c in
        let d' =
          evaluate_entitlement fold
            (record c { over_limit = over; usage = usage; limits = limits }) in
        (d'.status ≡ d.status)
        × (d'.readiness_effect ≡ d.readiness_effect)
        × (d'.findings ≡ d.findings))
unfolding evaluate_entitlement findings_of
usage-warns fold c over usage limits = (refl, refl, refl)
