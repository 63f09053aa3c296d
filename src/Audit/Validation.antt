-- ===== src/Audit/Validation.antt =====
-- What validated audit events are, and that the events of decisions validate (audit.py).
use harness_auto_test_eviden.Prelude.{
  String, Bool, false, not, ◌&&◌, ◌||◌, List, ◌≡◌, ◌===◌, member, is_empty,
}
use harness_auto_test_eviden.Access.{RbacDecision}
use harness_auto_test_eviden.Audit.{
  audited_actions, Payload, AuditEvent, missing_required, has_matching_event, build_audit_event,
}

-- A required decision is covered: its action is not audited, or an event matches it.
abbrev pub is_covered : List AuditEvent → RbacDecision → Bool
is_covered events d = not (member d.action audited_actions) || has_matching_event d events

-- A decision and the timestamp and the previous hash of its event
abbrev pub Entry : Type 0
Entry = RbacDecision × String × String

-- Every required field of the event holds something.
pub record IsAuditable (x : Entry) : Type 0 where
  pub actor : (x.0.actor_id === "") ≡ false
  pub action : (x.0.action === "") ≡ false
  pub reason : (x.0.reason === "") ≡ false
  pub source_refs : is_empty x.0.source_refs ≡ false
  pub timestamp : (x.1 === "") ≡ false

module _ (digest : Payload → String) where
  -- An event with all its required fields, whose hash is missing or is that of its payload
  abbrev pub is_intact : AuditEvent → Bool
  is_intact e =
      is_empty (missing_required e.payload)
      && (e.event_hash === "" || digest e.payload === e.event_hash)

  abbrev pub event_for : Entry → AuditEvent
  event_for x = build_audit_event digest x.0 x.1 x.2
