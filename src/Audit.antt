-- ===== src/Audit.antt =====
-- Audit events of access decisions and their validation (src/hate/enterprise/audit.py), over the
-- decisions of Access. `digest` stands for _stable_hash; times are texts that the caller gives; an
-- empty resource of an event is none.
pub mod Validation
mod Tests
use Prim.Native.String.{slice}
use harness_auto_test_eviden.Prelude.{
  String, Bool, true, false, not, ◌&&◌, Option, none, some, List, [], ◌∷◌, ◌++◌, map, ◌===◌, member,
  any, select, is_empty, is_some, joined, if◌then◌else◌,
}
use harness_auto_test_eviden.Access.{Verdict, allowed, denied, RbacDecision}

-- AUDITED_ACTIONS
abbrev pub audited_actions : List String
audited_actions =
    "read" ∷ "export" ∷ "review" ∷ "approve_review" ∷ "reject_review" ∷ "quarantine"
    ∷ "release_quarantine" ∷ "admin" ∷ "configure_policy" ∷ "manage_role" ∷ "delete_resource" ∷ []

pub record AuditResource : Type 0 where
  pub type : String
  pub id : String
  pub classification : String
  pub quarantine_status : String

-- What is hashed of an event
pub record Payload : Type 0 where
  pub actor : String
  pub action : String
  pub resource : Option AuditResource
  pub decision : String
  pub reason : String
  pub timestamp : String
  pub source_refs : List String
  pub previous_hash : String

pub record AuditEvent : Type 0 where
  pub event_id : String
  pub payload : Payload
  pub event_hash : String

pub data AuditFinding : Type 0 where
  audit_event_missing_required_field : (event_id : String) (fields : List String) → AuditFinding
  audit_hash_chain_broken : (event_id : String) → AuditFinding
  missing_audit_event : (action resource_id : String) → AuditFinding

abbrev pub verdict_text : Verdict → String
verdict_text allowed = "allowed"
verdict_text denied = "denied"

abbrev missing_if : Bool → String → List String
missing_if b field = if b then field ∷ [] else []

unfoldable pub missing_required : Payload → List String
missing_required p =
    missing_if (p.actor === "") "actor"
    ++ (missing_if (p.action === "") "action"
        ++ (missing_if (not (is_some p.resource)) "resource"
            ++ (missing_if (p.decision === "") "decision"
                ++ (missing_if (p.reason === "") "reason"
                    ++ (missing_if (is_empty p.source_refs) "sourceRefs"
                        ++ missing_if (p.timestamp === "") "timestamp")))))

abbrev pub is_resource : RbacDecision → Option AuditResource → Bool
is_resource d none = false
is_resource d (some r) = r.type === d.resource_type && r.id === d.resource_id

unfoldable pub is_matching : RbacDecision → AuditEvent → Bool
is_matching d e =
    e.payload.actor === d.actor_id
    && (e.payload.action === d.action
        && (is_resource d e.payload.resource
            && (e.payload.decision === verdict_text d.decision && e.payload.reason === d.reason)))

abbrev pub has_matching_event : RbacDecision → List AuditEvent → Bool
has_matching_event d events = any (is_matching d) events

-- The loop over the required decisions
unfoldable pub decision_findings : List AuditEvent → List RbacDecision → List AuditFinding
decision_findings events [] = []
decision_findings events (d ∷ ds) =
    let rest = decision_findings events ds in
    if not (member d.action audited_actions)
    then rest
    else if not (has_matching_event d events)
    then missing_audit_event d.action d.resource_id ∷ rest
    else rest

module _ (digest : Payload → String) where
  abbrev pub event_of : Payload → AuditEvent
  event_of p = record {
    event_id = joined "audit-" (slice (digest p) 0 16);
    payload = p;
    event_hash = digest p;
  }

  -- build_audit_event, with a timestamp
  unfoldable pub build_audit_event : RbacDecision → (timestamp previous_hash : String) → AuditEvent
  build_audit_event d timestamp previous_hash = event_of (record {
    actor = d.actor_id;
    action = d.action;
    resource = some (record {
      type = d.resource_type;
      id = d.resource_id;
      classification = d.classification;
      quarantine_status = d.quarantine_status;
    });
    decision = verdict_text d.decision;
    reason = d.reason;
    timestamp = timestamp;
    source_refs = d.source_refs;
    previous_hash = previous_hash;
  })

  abbrev pub is_broken : AuditEvent → Bool
  is_broken e = not (e.event_hash === "") && not (digest e.payload === e.event_hash)

  abbrev pub event_findings : AuditEvent → List AuditFinding
  event_findings e =
      (if not (is_empty (missing_required e.payload))
        then audit_event_missing_required_field e.event_id (missing_required e.payload) ∷ []
        else [])
      ++ (if is_broken e then audit_hash_chain_broken e.event_id ∷ [] else [])

  -- The loop over the events
  unfoldable pub all_event_findings : List AuditEvent → List AuditFinding
  all_event_findings [] = []
  all_event_findings (e ∷ es) = event_findings e ++ all_event_findings es

  -- The findings and the readiness effect of validate_audit_events
  unfoldable pub validate_audit_events :
      List AuditEvent → List RbacDecision → List AuditFinding × String
  validate_audit_events events required =
      let findings = all_event_findings events ++ decision_findings events required in
      (findings, if not (is_empty findings) then "hold" else "pass")
