-- ===== src/Worker/Tests.antt =====
-- A worker job that runs through, and one whose error is retried.
use harness_auto_test_eviden.Prelude.{
  true, false, none, some, [], ◌∷◌, ◌++◌, ◌≡◌, refl, member, is_empty, ◌===◌, ◌⊎◌,
}
use harness_auto_test_eviden.Worker.{
  Naming, JobState, Input, build_initial_job, allowed_events, apply_worker_event,
  apply_worker_events, evaluate_worker, run_job, complete, decision_for_job,
}
use harness_auto_test_eviden.Worker.Trace.{Passes, events-Passes}
use harness_auto_test_eviden.Worker.Verdicts.{pass-IsGood}

abbrev plain_naming : Naming
plain_naming = record { content_hash = λ j t k. "h" }

abbrev whole_run : Input
whole_run = record {
  job_id = none;
  tenant_id = none;
  kind = none;
  status = none;
  idempotency_key = some "k";
  worker_events = "leased" ∷ "running" ∷ "succeeded" ∷ [];
  error_class = none;
  max_attempts = none;
  cancel_requested = false;
  partial_evidence = false;
}

abbrev queued : JobState
queued = record {
  job_id = "j";
  tenant_id = "t";
  kind = "ingest";
  status = "queued";
  idempotency_key = "k";
  attempts = 1;
  worker_events = [];
  audit_events = [];
  artifacts = [];
  findings = [];
}

events-Passes_example :
    Passes "queued"
      ("leased" ∷ "running" ∷ "retry_wait" ∷ [])
      (apply_worker_events plain_naming queued ("leased" ∷ "running" ∷ "retry_wait" ∷ [])).status
    × ((apply_worker_events plain_naming queued
          ("leased" ∷ "running" ∷ "retry_wait" ∷ [])).worker_events
        ≡ [] ++ ("leased" ∷ "running" ∷ "retry_wait" ∷ []))
unfolding apply_worker_events apply_worker_event allowed_events
events-Passes_example =
    events-Passes plain_naming queued ("leased" ∷ "running" ∷ "retry_wait" ∷ []) refl

pass-IsGood_example :
    (let job = (evaluate_worker plain_naming whole_run).0 in
      (job.findings ≡ [])
      × (member job.status ("succeeded" ∷ "cancelled" ∷ "succeeded_with_quarantine" ∷ []) ≡ true)
      × (((job.status === "succeeded") ≡ false) ⊎ (is_empty job.artifacts ≡ false)))
unfolding evaluate_worker build_initial_job run_job apply_worker_events apply_worker_event
    allowed_events complete decision_for_job
pass-IsGood_example = pass-IsGood plain_naming whole_run refl
