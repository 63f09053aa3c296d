-- ===== src/Retention.antt =====
-- Legal holds and retention (src/hate/enterprise/legal_hold.py, retention.py). The parsing and the
-- printing of times are parameters; an instant is a natural number of microseconds, and the text of
-- a message is left out.
mod Legal
pub mod Holds
pub mod Reports
mod Tests
use harness_auto_test_eviden.Prelude.{
  ℕ, suc, ◌+◌, String, Bool, true, false, not, ◌&&◌, ◌||◌, Option, none, some, List, [], ◌∷◌, ◌++◌,
  map, ltb, leb, ◌===◌, member, or_text, is_empty, is_some, length, select, if◌then◌else◌,
}
unfoldable pub use Legal.*

unfoldable pub default_days : String → ℕ
default_days c = if c === "confidential" then 180 else if c === "restricted" then 0 else 365

abbrev pub policy_of : Resource → Policy → String
policy_of r policy = or_text r.retention_policy_id (or_text policy.policy_id "")

abbrev pub class_of : Resource → String
class_of r = or_text r.classification "internal"

abbrev pub kind_of : Resource → String
kind_of r = or_text r.resource_type "bundle"

abbrev pub option_list : Option Finding → List Finding
option_list none = []
option_list (some f) = f ∷ []

-- _evaluation
unfoldable pub evaluation :
    Resource → Policy → String → Effect → String → Option Finding → Bool → Bool → Evaluation
evaluation r policy action effect reason finding purge hold_ok = record {
  resource_id = id_of r;
  resource_type = kind_of r;
  retention_policy_id = policy_of r policy;
  classification = class_of r;
  action = action;
  readiness_effect = effect;
  reason = reason;
  purge_eligible_metadata_only = purge;
  canonical_evidence_deleted = false;
  legal_hold_preserved = hold_ok;
  findings = option_list finding;
  source_refs = r.source_refs;
}

abbrev pub finding_of : Resource → String → Effect → Option Finding
finding_of r code effect = some (record {
  code = code;
  severity = severity effect;
  source_ref = first_ref r.source_refs;
  missing_fields = [];
})

abbrev pub is_hard_dq : Effect → Bool
is_hard_dq hard_dq = true
is_hard_dq _ = false

abbrev pub hold_active : Option LegalHold → Bool
hold_active none = false
hold_active (some h) = is_active h

module _ (clock : Clock) where
  abbrev pub days_of : Policy → String → ℕ
  days_of policy c = days_or policy.retention_days
    where
      days_or : Option ℕ → ℕ
      days_or none = default_days c
      days_or (some n) = n

  abbrev pub stamp : ℕ → String → Option ℕ → Option String
  stamp days created none = none
  stamp days created (some at) = some (clock.days_after at days)

  -- The text of the expiry, where the resource has one; the outer none is a text that cannot be
  -- read as a time (ValueError).
  unfoldable pub expiry : Resource → Policy → Option (Option String)
  expiry r policy =
      let days = days_of policy (class_of r) in
      let created = or_text r.created_at "" in
      if not (is_blank r.expires_at)
      then some (some (or_text r.expires_at ""))
      else if created === ""
      then some none
      else if ltb days 1
      then some (some created)
      else wrap (stamp days created (clock.parse created))
    where
      wrap : Option String → Option (Option String)
      wrap none = none
      wrap (some s) = some (some s)

  unfoldable pub valid_policy : Resource → Policy → Evaluation
  valid_policy r policy = evaluation r policy "retain" pass "retention_policy_valid" none false true

  -- The end of evaluate_retention_policy, once the expiry is read.
  unfoldable pub by_expiry : Resource → Policy → ℕ → Option ℕ → Evaluation
  by_expiry r policy now none = valid_policy r policy
  by_expiry r policy now (some at) =
      if not (leb at now)
      then valid_policy r policy
      else if hold_active r.legal_hold
      then evaluation r policy "retain" pass "retention_expired_but_legal_hold_active" none false
          true
      else evaluation r policy "metadata_purge_eligible" soft_gap "retention_expired_metadata_only"
          (finding_of r "retention_expired_metadata_only" soft_gap) true true

  -- The instant of an expiry; the outer none is a ValueError.
  abbrev pub instant : Option (Option String) → Option (Option ℕ)
  instant none = none
  instant (some none) = some none
  instant (some (some s)) = at_text (clock.parse s)
    where
      at_text : Option ℕ → Option (Option ℕ)
      at_text none = none
      at_text (some n) = some (some n)

  abbrev pub now_of : Option String → Option ℕ
  now_of o = if is_blank o then some clock.current_time else clock.parse (or_text o "")

  abbrev pub finish : Resource → Policy → ℕ → Option (Option ℕ) → Option Evaluation
  finish r policy now none = none
  finish r policy now (some at) = some (by_expiry r policy now at)

  -- evaluate_retention_policy after its time is read.
  unfoldable pub evaluate_at : Resource → Policy → String → ℕ → String → Option Evaluation
  evaluate_at r policy profile now operation =
      let result = evaluate_legal_hold r operation profile in
      let effect = gap_effect profile in
      if member (kind_of r) ("bundle" ∷ "canonical_bundle" ∷ []) && (policy_of r policy === "")
      then some (
          evaluation r policy "hold" effect "missing_retention_policy"
            (finding_of r "missing_retention_policy" effect) false true)
      else if is_hard_dq result.readiness_effect
      then some (
          evaluation r policy "blocked_by_legal_hold" hard_dq result.status result.finding false
            true)
      else if lost_hold r.migration
      then some (
          evaluation r policy "hold" effect "legal_hold_lost"
            (finding_of r "legal_hold_lost" effect) false false)
      else finish r policy now (instant (expiry r policy))

  abbrev pub evaluate_now : Option ℕ → Resource → Policy → String → String → Option Evaluation
  evaluate_now none r policy profile operation = none
  evaluate_now (some now) r policy profile operation = evaluate_at r policy profile now operation

  -- none: a time cannot be read (ValueError).
  unfoldable pub evaluate_retention_policy :
      Resource → Policy → String → Option String → String → Option Evaluation
  evaluate_retention_policy r policy profile now operation =
      evaluate_now (now_of now) r policy profile operation

-- _max_effect
abbrev pub rank : Effect → ℕ
rank pass = 0
rank soft_gap = 1
rank hold = 2
rank hard_dq = 3

abbrev pub worse : Effect → Effect → Effect
worse a b = if ltb (rank a) (rank b) then b else a

abbrev pub larger : Effect → List Effect → Effect
larger best [] = best
larger best (e ∷ es) = larger (worse best e) es

unfoldable pub max_effect : List Effect → Effect
max_effect [] = pass
max_effect (e ∷ es) = larger e es
