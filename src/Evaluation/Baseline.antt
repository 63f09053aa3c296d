-- ===== src/Evaluation/Baseline.antt =====
-- The governance of a baseline (src/hate/evaluation/baseline_governance.py): an append-only list of
-- events is reduced to a projection, which says whether the baseline serves for comparison. Fields
-- that are no texts, which str would print, are left out.

mod Records
pub mod Folds
pub mod Variables
pub mod Usable
pub mod Serving
mod Tests
use harness_auto_test_eviden.Prelude.{
  ℕ, String, Bool, true, false, not, ◌&&◌, ◌||◌, Option, List, [], ◌∷◌, ◌++◌, map, ◌===◌, or_text,
  is_empty, length, if◌then◌else◌,
}
use harness_auto_test_eviden.CodePoints.{codes, before}
unfoldable pub use Records.*

unfoldable pub event_type_of : String → EventType
event_type_of t =
    if t === "proposed"
    then proposed
    else if t === "approved"
    then approved
    else if t === "frozen"
    then frozen
    else if t === "expired"
    then expired
    else if t === "revoked"
    then revoked
    else if t === "superseded"
    then superseded
    else invalid

-- _normalize_event
abbrev pub normalize_event : RawEvent → BaselineEvent
normalize_event e = record {
  event_type = event_type_of (or_text e.event_type "");
  baseline_id = or_text e.baseline_id "";
  repo_id = or_text e.repo_id "";
  suite_id = or_text e.suite_id "default";
  baseline_run_id = or_text e.baseline_run_id "";
  actor = or_text e.actor "";
  reason = or_text e.reason "";
  approved_by = or_text e.approved_by "";
  expires_at = or_text e.expires_at "";
  policy_hash = or_text e.policy_hash "";
  ownership_scope = or_text e.ownership_scope "owned";
}

abbrev pub no_projection : Projection
no_projection = record {
  baseline_id = "";
  repo_id = "";
  suite_id = "default";
  baseline_run_id = "";
  status = missing;
  frozen_ = false;
  replacement_pending = false;
  actor = "";
  reason = "";
  approved_by = "";
  expires_at = "";
  policy_hash = "";
  ownership_scope = "owned";
  last_event_type = Option.none;
}

-- if event.get(key): projection[key] = event[key]
abbrev pub or_kept : String → String → String
or_kept given kept = if given === "" then kept else given

abbrev pub status_after : EventType → BaselineStatus → BaselineStatus
status_after proposed s = is_proposed
status_after approved s = is_approved
status_after frozen s = s
status_after expired s = is_expired
status_after revoked s = is_revoked
status_after superseded s = is_superseded
status_after invalid s = s

abbrev pub frozen_after : EventType → Bool → Bool
frozen_after frozen b = true
frozen_after _ b = b

abbrev pub pending_after : EventType → Bool → Bool
pending_after superseded b = false
pending_after _ b = b

-- One round of the loop of _reduce_events
unfoldable pub absorb : BaselineEvent → Projection → Projection
absorb e p = record {
  baseline_id = or_kept e.baseline_id p.baseline_id;
  repo_id = or_kept e.repo_id p.repo_id;
  suite_id = or_kept e.suite_id p.suite_id;
  baseline_run_id = or_kept e.baseline_run_id p.baseline_run_id;
  status = status_after e.event_type p.status;
  frozen_ = frozen_after e.event_type p.frozen_;
  replacement_pending = pending_after e.event_type p.replacement_pending;
  actor = or_kept e.actor p.actor;
  reason = or_kept e.reason p.reason;
  approved_by = or_kept e.approved_by p.approved_by;
  expires_at = or_kept e.expires_at p.expires_at;
  policy_hash = or_kept e.policy_hash p.policy_hash;
  ownership_scope = or_kept e.ownership_scope p.ownership_scope;
  last_event_type = Option.some e.event_type;
}

unfoldable pub absorb_all : List BaselineEvent → Projection → Projection
absorb_all [] p = p
absorb_all (e ∷ es) p = absorb_all es (absorb e p)

abbrev pub has_status : BaselineStatus → BaselineStatus → Bool
has_status missing missing = true
has_status is_proposed is_proposed = true
has_status is_approved is_approved = true
has_status is_expired is_expired = true
has_status is_revoked is_revoked = true
has_status is_superseded is_superseded = true
has_status _ _ = false

abbrev pub settles : Option EventType → Bool
settles (Option.some frozen) = true
settles (Option.some approved) = true
settles (Option.some superseded) = true
settles _ = false

abbrev pub is_past : String → String → Bool
is_past date today = not (date === "") && before (codes date) (codes today)

-- The two tests after the loop
unfoldable pub expire : String → Projection → Projection
expire today p = record p {
  status =
      if has_status is_approved p.status && is_past p.expires_at today
      then is_expired
      else p.status;
}

unfoldable pub suspend : Projection → Projection
suspend p = record p {
  replacement_pending =
      p.replacement_pending
      || (p.frozen_ && (has_status is_approved p.status && not (settles p.last_event_type)));
}

-- _reduce_events
unfoldable pub reduce_events : List BaselineEvent → String → Projection
reduce_events events today = suspend (expire today (absorb_all events no_projection))

abbrev pub baseline_finding_if : Bool → BaselineFinding → List BaselineFinding
baseline_finding_if true f = f ∷ []
baseline_finding_if false f = []

abbrev pub ends_approved : Option EventType → Bool
ends_approved (Option.some approved) = true
ends_approved _ = false

-- _findings_for_projection
unfoldable pub findings_for_projection : Projection → List BaselineFinding
findings_for_projection p =
    baseline_finding_if (p.baseline_id === "" || has_status missing p.status) baseline_missing
    ++ (baseline_finding_if (has_status is_proposed p.status) baseline_unapproved
        ++ (baseline_finding_if (has_status is_expired p.status) baseline_expired
            ++ (baseline_finding_if (has_status is_revoked p.status) baseline_revoked
                ++ (baseline_finding_if (has_status is_superseded p.status) baseline_superseded
                    ++ (baseline_finding_if (p.frozen_ && ends_approved p.last_event_type)
                          baseline_frozen_replacement_missing_supersede
                        ++ baseline_finding_if (p.ownership_scope === "external")
                            baseline_external_not_readiness_proof)))))

-- The report on the events that _normalize_event has made
unfoldable pub baseline_report : List BaselineEvent → String → BaselineReport
baseline_report events today =
    let p = reduce_events events today in
    let findings = findings_for_projection p in
    let can_use = is_empty findings && has_status is_approved p.status in
    record {
      projection = p;
      can_use_for_regression = if p.frozen_ then can_use && not p.replacement_pending else can_use;
      implementation_readiness_proof = not (p.ownership_scope === "external");
      findings = findings;
      event_count = length events;
    }

-- build_real_repo_baseline_governance_report
abbrev pub build_baseline_report : List RawEvent → String → BaselineReport
build_baseline_report data_ today = baseline_report (map normalize_event data_) today
