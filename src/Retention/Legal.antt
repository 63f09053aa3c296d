-- ===== src/Retention/Legal.antt =====
-- Legal holds (src/hate/enterprise/legal_hold.py), and the resources and policies that they and the
-- retention stand on.
use harness_auto_test_eviden.Prelude.{
  ℕ, String, Bool, true, false, not, ◌&&◌, Option, none, some, List, [], ◌∷◌, ◌++◌, ◌===◌, member,
  or_text, is_empty, if◌then◌else◌,
}

pub data Effect : Type 0 where
  pass soft_gap hold hard_dq : Effect

-- The four required fields of "legal_hold"; none is a missing field. `others` are the fields besides
-- them, in the order of their names, with the JSON text of their values.
pub record LegalHold : Type 0 where
  pub status : Option String
  pub reason : Option String
  pub held_since : Option String
  pub authorized_by : Option String
  pub others : List (String × String)

-- A resource; a legal hold that is missing or an empty dict is none.
pub record Resource : Type 0 where
  pub resource_id : Option String
  pub bundle_id : Option String
  pub artifact_id : Option String
  pub resource_type : Option String
  pub classification : Option String
  pub retention_policy_id : Option String
  pub legal_hold : Option LegalHold
  pub migration : Option (Option LegalHold × Option LegalHold)
  pub expires_at : Option String
  pub created_at : Option String
  pub operation : Option String
  pub source_refs : List String

pub record Policy : Type 0 where
  pub policy_id : Option String
  pub retention_days : Option ℕ

pub record Finding : Type 0 where
  pub code : String
  pub severity : String
  pub source_ref : String
  pub missing_fields : List String

pub record HoldResult : Type 0 where
  pub resource_id : String
  pub operation : String
  pub status : String
  pub readiness_effect : Effect
  pub finding : Option Finding
  pub source_refs : List String

pub record Evaluation : Type 0 where
  pub resource_id : String
  pub resource_type : String
  pub retention_policy_id : String
  pub classification : String
  pub action : String
  pub readiness_effect : Effect
  pub reason : String
  pub purge_eligible_metadata_only : Bool
  pub canonical_evidence_deleted : Bool
  pub legal_hold_preserved : Bool
  pub findings : List Finding
  pub source_refs : List String

-- datetime and float: how a text is read, the present, and the text of an instant that lies some
-- days after another.
pub record Clock : Type 0 where
  pub parse : String → Option ℕ
  pub current_time : ℕ
  pub days_after : ℕ → ℕ → String

abbrev pub first_ref : List String → String
first_ref [] = ""
first_ref (r ∷ rs) = r

abbrev pub severity : Effect → String
severity hard_dq = "critical"
severity hold = "high"
severity soft_gap = "medium"
severity pass = "info"

abbrev pub strict : String → Bool
strict profile = member profile ("release" ∷ "regulated" ∷ [])

abbrev pub gap_effect : String → Effect
gap_effect profile = if strict profile then hard_dq else hold

abbrev pub is_blank : Option String → Bool
is_blank o = or_text o "" === ""

abbrev pub id_of : Resource → String
id_of r = or_text r.resource_id (or_text r.bundle_id (or_text r.artifact_id ""))

abbrev pub name_if : Bool → String → List String
name_if b n = if b then n ∷ [] else []

-- The required fields that are missing or empty, sorted.
unfoldable pub missing_fields : LegalHold → List String
missing_fields h =
    name_if (is_blank h.authorized_by) "authorized_by"
    ++ (name_if (is_blank h.held_since) "held_since"
        ++ (name_if (is_blank h.reason) "reason" ++ name_if (is_blank h.status) "status"))

abbrev pub is_active : LegalHold → Bool
is_active h = or_text h.status "" === "active"

abbrev pub mutating_operations : List String
mutating_operations = "purge" ∷ "delete" ∷ "export_raw" ∷ "mutate_export" ∷ "release_hold" ∷ []

unfoldable pub legal_hold_blocks_operation : LegalHold → String → Bool
legal_hold_blocks_operation h operation = is_active h && member operation mutating_operations

abbrev pub unless_pass : Effect → Finding → Option Finding
unless_pass pass f = none
unless_pass _ f = some f

unfoldable pub hold_result : Resource → String → String → Effect → List String → HoldResult
hold_result r operation code effect missing = record {
  resource_id = id_of r;
  operation = operation;
  status = code;
  readiness_effect = effect;
  finding = unless_pass effect (record {
    code = code;
    severity = severity effect;
    source_ref = first_ref r.source_refs;
    missing_fields = missing;
  });
  source_refs = r.source_refs;
}

-- The code, the effect and the missing fields of evaluate_legal_hold.
unfoldable pub judge_hold : Option LegalHold → String → String → String × (Effect × List String)
judge_hold none operation profile = ("missing_legal_hold", (gap_effect profile, []))
judge_hold (some h) operation profile =
    if not (is_empty (missing_fields h))
    then ("legal_hold_incomplete", (gap_effect profile, missing_fields h))
    else if is_active h && legal_hold_blocks_operation h operation
    then ("legal_hold_blocks_mutation", (hard_dq, []))
    else if is_active h
    then ("legal_hold_active", (pass, []))
    else if not (member (or_text h.status "") ("inactive" ∷ "released" ∷ "none" ∷ []))
    then ("legal_hold_unknown_status", (hold, []))
    else ("legal_hold_clear", (pass, []))

unfoldable pub evaluate_legal_hold : Resource → String → String → HoldResult
evaluate_legal_hold r operation profile =
    let (code, (effect, missing)) = judge_hold r.legal_hold operation profile in
    hold_result r operation code effect missing

abbrev pub same_text : Option String → Option String → Bool
same_text none none = true
same_text (some s) (some t) = s === t
same_text _ _ = false

abbrev pub same_fields : List (String × String) → List (String × String) → Bool
same_fields [] [] = true
same_fields ((k, v) ∷ fs) ((k', v') ∷ gs) = k === k' && v === v' && same_fields fs gs
same_fields _ _ = false

-- legal_hold_preserved
unfoldable pub same_hold : Option LegalHold → Option LegalHold → Bool
same_hold none none = true
same_hold (some a) (some b) =
    same_text a.status b.status
    && same_text a.reason b.reason
    && same_text a.held_since b.held_since
    && same_text a.authorized_by b.authorized_by
    && same_fields a.others b.others
same_hold _ _ = false

abbrev pub lost_hold : Option (Option LegalHold × Option LegalHold) → Bool
lost_hold none = false
lost_hold (some (before, after)) = not (same_hold before after)

-- DEFAULT_RETENTION_DAYS.get(classification, 365)
