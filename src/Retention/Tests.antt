-- ===== src/Retention/Tests.antt =====
-- An expired resource, and one under an active hold.
use harness_auto_test_eviden.Prelude.{true, none, some, [], ◌≡◌, refl}
use harness_auto_test_eviden.Retention.{
  LegalHold, Resource, Policy, Evaluation, Clock, soft_gap, evaluation, finding_of,
  evaluate_retention_policy, evaluate_at, evaluate_legal_hold, hold_result, judge_hold,
  missing_fields, expiry, by_expiry,
}
use harness_auto_test_eviden.Retention.Holds.{IsExpired, purge-IsExpired}

-- A clock at the instant 10 that reads every text as the instant 5.
abbrev still_clock : Clock
still_clock = record { parse = λ s. some 5; current_time = 10; days_after = λ at days. "later" }

abbrev released : LegalHold
released = record {
  status = some "released";
  reason = some "r";
  held_since = some "s";
  authorized_by = some "a";
  others = [];
}

abbrev active : LegalHold
active = record released { status = some "active" }

abbrev expired : Resource
expired = record {
  resource_id = some "b";
  bundle_id = none;
  artifact_id = none;
  resource_type = none;
  classification = none;
  retention_policy_id = some "p";
  legal_hold = some released;
  migration = none;
  expires_at = some "t";
  created_at = none;
  operation = none;
  source_refs = [];
}

abbrev held : Resource
held = record expired { legal_hold = some active }

abbrev no_policy : Policy
no_policy = record { policy_id = none; retention_days = none }

abbrev purge : Evaluation
purge =
    evaluation expired no_policy "metadata_purge_eligible" soft_gap
      "retention_expired_metadata_only"
      (finding_of expired "retention_expired_metadata_only" soft_gap) true true

expired_purged :
    evaluate_retention_policy still_clock expired no_policy "default" none "read" ≡ some purge
unfolding evaluate_retention_policy evaluate_at evaluate_legal_hold hold_result judge_hold
    missing_fields expiry by_expiry
expired_purged = refl

purge-IsExpired_example : IsExpired still_clock expired no_policy none purge
unfolding evaluation
purge-IsExpired_example =
    purge-IsExpired still_clock expired no_policy "default" none "read" purge expired_purged refl
