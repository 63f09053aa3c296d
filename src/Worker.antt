-- ===== src/Worker.antt =====
-- The life of a worker job (src/hate/runtime_worker.py): its first state, the worker's events, the
-- error, the cancellation, and the decision. The hash of an artifact's content (json.dumps and
-- hashlib) is a parameter; messages are left out, and audit events and findings go by their codes.
pub mod Trace
pub mod Verdicts
mod Tests
use harness_auto_test_eviden.Prelude.{
  ℕ, suc, String, Bool, true, false, not, ◌&&◌, ◌||◌, Option, none, some, List, [], ◌∷◌, ◌++◌, ltb,
  joined, ◌===◌, member, or_text, get_or, is_empty, if◌then◌else◌,
}

pub record Artifact : Type 0 where
  pub job_id : String
  pub hash : String
  pub safety_status : String
  pub retention_class : String

pub record JobState : Type 0 where
  pub job_id : String
  pub tenant_id : String
  pub kind : String
  pub status : String
  pub idempotency_key : String
  pub attempts : ℕ
  pub worker_events : List String
  pub audit_events : List String
  pub artifacts : List Artifact
  pub findings : List String

-- What the fixture's "input" holds; none is a missing key. A max_attempts below zero acts as zero.
pub record Input : Type 0 where
  pub job_id : Option String
  pub tenant_id : Option String
  pub kind : Option String
  pub status : Option String
  pub idempotency_key : Option String
  pub worker_events : List String
  pub error_class : Option String
  pub max_attempts : Option ℕ
  pub cancel_requested : Bool
  pub partial_evidence : Bool

pub record Decision : Type 0 where
  pub status : String
  pub readiness_effect : String
  pub finding_code : String

-- The hash of an artifact's content.
pub record Naming : Type 0 where
  pub content_hash : (job_id tenant_id kind : String) → String

-- The dict `allowed` of _apply_worker_event.
unfoldable pub allowed_events : String → List String
allowed_events status =
    if status === "queued"
    then "leased" ∷ "cancelling" ∷ []
    else if status === "leased"
    then "running" ∷ "cancelling" ∷ []
    else if status === "running"
    then "succeeded" ∷ "retry_wait" ∷ "failed" ∷ "poison" ∷ "cancelling" ∷ []
    else if status === "retry_wait"
    then "queued" ∷ []
    else if status === "cancelling"
    then "cancelled" ∷ []
    else []

abbrev pub retryable : String → Bool
retryable e = member e ("transient_io" ∷ "rate_limited" ∷ [])

abbrev pub first_code : List String → Option String
first_code [] = none
first_code (c ∷ cs) = some c

-- _decision_for_job, on the first finding and the status.
abbrev pub decision_by : Option String → String → Decision
decision_by (some code) status = record {
  status = "hold";
  readiness_effect = "hold";
  finding_code = code;
}
decision_by none status =
    if member status ("succeeded" ∷ "cancelled" ∷ "succeeded_with_quarantine" ∷ [])
    then record { status = "pass"; readiness_effect = "none"; finding_code = "" }
    else record {
      status = "hold";
      readiness_effect = "hold";
      finding_code = "worker_did_not_reach_terminal_state";
    }

unfoldable pub decision_for_job : JobState → Decision
decision_for_job job = decision_by (first_code job.findings) job.status

module _ (naming : Naming) where
  -- _build_initial_job
  unfoldable pub build_initial_job : Input → JobState
  build_initial_job i =
      let key = or_text i.idempotency_key "" in
      let status = or_text i.status "queued" in
      let keyless = key === "" && status === "queued" in
      record {
        job_id = or_text i.job_id (joined "job-" (if key === "" then "missing" else key));
        tenant_id = or_text i.tenant_id "tenant-local";
        kind = or_text i.kind "ingest";
        status = if keyless then "failed" else status;
        idempotency_key = key;
        attempts = 0;
        worker_events = [];
        audit_events = [];
        artifacts = [];
        findings = if keyless then "worker_idempotency_key_missing" ∷ [] else [];
      }

  unfoldable pub artifact_for_job : JobState → String → String → Artifact
  artifact_for_job job safety_status retention_class = record {
    job_id = job.job_id;
    hash = naming.content_hash job.job_id job.tenant_id job.kind;
    safety_status = safety_status;
    retention_class = retention_class;
  }

  abbrev pub add_artifact : Bool → JobState → String → String → JobState
  add_artifact true job s r = record job {
    artifacts = job.artifacts ++ artifact_for_job job s r ∷ [];
  }
  add_artifact false job s r = job

  abbrev pub take_lease : Bool → JobState → JobState
  take_lease true job = record job {
    attempts = suc job.attempts;
    audit_events = job.audit_events ++ "lease_acquired" ∷ [];
  }
  take_lease false job = job

  -- _apply_worker_event
  unfoldable pub apply_worker_event : JobState → String → JobState
  apply_worker_event job event =
      if not (member event (allowed_events job.status))
      then record job {
        status = "poison";
        findings = job.findings ++ "worker_invalid_transition" ∷ [];
        audit_events = job.audit_events ++ "worker_invalid_transition" ∷ [];
      }
      else add_artifact (event === "succeeded")
          (take_lease (event === "leased")
            (record job { status = event; worker_events = job.worker_events ++ event ∷ [] }))
          "safe" "standard"

  unfoldable pub apply_worker_events : JobState → List String → JobState
  apply_worker_events job [] = job
  apply_worker_events job (e ∷ es) = apply_worker_events (apply_worker_event job e) es

  -- _apply_error
  unfoldable pub apply_error : JobState → String → ℕ → JobState
  apply_error job error max_attempts =
      if retryable error && ltb job.attempts max_attempts
      then record job {
        status = "retry_wait";
        worker_events = job.worker_events ++ "retry_wait" ∷ [];
        audit_events = job.audit_events ++ "retry_scheduled" ∷ [];
      }
      else if member error ("invariant_violation" ∷ [])
      then record job {
        status = "poison";
        findings = job.findings ++ "worker_poison_message" ∷ [];
        audit_events = job.audit_events ++ "poison_message" ∷ [];
      }
      else if member error ("schema_invalid_input" ∷ []) || retryable error
      then record job {
        status = "failed";
        findings = job.findings ++ "worker_job_failed" ∷ [];
        audit_events = job.audit_events ++ "job_failed" ∷ [];
      }
      else if error === "unsafe_artifact"
      then record job {
        status = "succeeded_with_quarantine";
        artifacts =
            job.artifacts
            ++ artifact_for_job (record job { status = "succeeded_with_quarantine" }) "quarantined"
                "standard"
              ∷ [];
        audit_events = job.audit_events ++ "artifact_quarantined" ∷ [];
      }
      else job

  -- if error_class: _apply_error(…)
  abbrev pub apply_error_class : JobState → Option String → ℕ → JobState
  apply_error_class job none max_attempts = job
  apply_error_class job (some e) max_attempts =
      if e === "" then job else apply_error job e max_attempts

  -- _cancel_job
  unfoldable pub cancel_job : JobState → Bool → JobState
  cancel_job job partial_evidence =
      if not (member job.status ("queued" ∷ "leased" ∷ "running" ∷ []))
      then job
      else let kept =
          add_artifact partial_evidence
            (record job {
              status = "cancelled";
              worker_events = job.worker_events ++ "cancelling" ∷ "cancelled" ∷ [];
            })
            "safe" "partial" in
        record kept { audit_events = kept.audit_events ++ "job_cancelled" ∷ [] }

  abbrev pub cancel_if : Bool → JobState → Bool → JobState
  cancel_if true job partial_evidence = cancel_job job partial_evidence
  cancel_if false job partial_evidence = job

  unfoldable pub run_job : JobState → Input → JobState
  run_job job i =
      cancel_if i.cancel_requested
        (apply_error_class (apply_worker_events job i.worker_events) i.error_class
          (get_or i.max_attempts 3))
        i.partial_evidence

  -- A succeeded job has an artifact.
  unfoldable pub complete : JobState → JobState
  complete job =
      add_artifact (job.status === "succeeded" && is_empty job.artifacts) job "safe" "standard"

  -- evaluate_worker_runtime_fixture: the job and the decision of its report. Its dict of seen jobs
  -- is new, so that no job is a duplicate.
  unfoldable pub evaluate_worker : Input → JobState × Decision
  evaluate_worker i =
      let job = build_initial_job i in
      let ran = if is_empty job.findings then run_job job i else job in
      let done = complete ran in (done, decision_for_job done)
