-- ===== src/Evaluation/Baseline/Records.antt =====
-- The events of a baseline, what they are reduced to, and the report on it
-- (baseline_governance.py).
use harness_auto_test_eviden.Prelude.{ℕ, String, Bool, Option, List}

-- EVENT_TYPES, and the type of every other event
pub data EventType : Type 0 where
  proposed approved frozen expired revoked superseded invalid : EventType

-- An event as it is read
pub record RawEvent : Type 0 where
  pub event_type : Option String
  pub baseline_id : Option String
  pub repo_id : Option String
  pub suite_id : Option String
  pub baseline_run_id : Option String
  pub actor : Option String
  pub reason : Option String
  pub approved_by : Option String
  pub expires_at : Option String
  pub policy_hash : Option String
  pub ownership_scope : Option String

pub record BaselineEvent : Type 0 where
  pub event_type : EventType
  pub baseline_id : String
  pub repo_id : String
  pub suite_id : String
  pub baseline_run_id : String
  pub actor : String
  pub reason : String
  pub approved_by : String
  pub expires_at : String
  pub policy_hash : String
  pub ownership_scope : String

pub data BaselineStatus : Type 0 where
  missing : BaselineStatus
  is_proposed is_approved is_expired is_revoked is_superseded : BaselineStatus

pub record Projection : Type 0 where
  pub baseline_id : String
  pub repo_id : String
  pub suite_id : String
  pub baseline_run_id : String
  pub status : BaselineStatus
  pub frozen_ : Bool
  pub replacement_pending : Bool
  pub actor : String
  pub reason : String
  pub approved_by : String
  pub expires_at : String
  pub policy_hash : String
  pub ownership_scope : String
  pub last_event_type : Option EventType

pub data BaselineFinding : Type 0 where
  baseline_missing baseline_unapproved baseline_expired : BaselineFinding
  baseline_revoked baseline_superseded : BaselineFinding
  baseline_frozen_replacement_missing_supersede : BaselineFinding
  baseline_external_not_readiness_proof : BaselineFinding

pub record BaselineReport : Type 0 where
  pub projection : Projection
  pub can_use_for_regression : Bool
  pub implementation_readiness_proof : Bool
  pub findings : List BaselineFinding
  pub event_count : ℕ
