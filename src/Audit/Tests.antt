-- ===== src/Audit/Tests.antt =====
-- Two decisions, their events, and what is found where an event is missing.
use harness_auto_test_eviden.Prelude.{String, false, List, [], ◌∷◌, ◌≡◌, refl, joined}
use harness_auto_test_eviden.Access.{allowed, denied, RbacDecision}
use harness_auto_test_eviden.Audit.{
  Payload, missing_audit_event, missing_required, is_matching, decision_findings, build_audit_event,
  all_event_findings, validate_audit_events,
}
use harness_auto_test_eviden.Audit.Validation.{Entry, event_for}

abbrev digest : Payload → String
digest p = joined p.actor (joined p.action p.timestamp)

abbrev export_denied : RbacDecision
export_denied = record {
  actor_id = "ann";
  role = "viewer";
  action = "export";
  resource_type = "bundle";
  resource_id = "b1";
  decision = denied;
  reason = "role_denied";
  allowed_scope = "none";
  readiness_effect = "pass";
  source_refs = "policy.md" ∷ [];
  verdict_mutated = false;
  request_id = "r1";
  classification = "public";
  quarantine_status = "none";
}

abbrev read_allowed : RbacDecision
read_allowed = record export_denied {
  action = "read";
  decision = allowed;
  reason = "role_allowed";
  request_id = "r2";
}

abbrev entries : List Entry
entries = (export_denied, "2026-01-01", "") ∷ (read_allowed, "2026-01-02", "h") ∷ []

-- Without its event, the denied export is reported.
unaudited :
    (validate_audit_events digest
      (event_for digest (read_allowed, "2026-01-02", "h") ∷ [])
      (export_denied ∷ read_allowed ∷ [])).0
    ≡ missing_audit_event "export" "b1" ∷ []
unfolding validate_audit_events all_event_findings decision_findings build_audit_event
    missing_required is_matching
unaudited = refl
