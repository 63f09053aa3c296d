-- ===== src/Access.antt =====
-- The role-based access decisions (src/hate/enterprise/rbac.py): the tables of roles and
-- classifications, and evaluate_rbac with its guards in their order.
pub mod Decisions
pub mod Roles
mod Viewers
mod Tests
use harness_auto_test_eviden.Prelude.{
  ℕ, String, Bool, true, false, not, ◌&&◌, ◌||◌, Option, none, some, List, [], ◌∷◌, ◌++◌, leb,
  ◌===◌, member, or_text, if◌then◌else◌,
}

abbrev pub read_actions : List String
read_actions = "read" ∷ []

abbrev pub export_actions : List String
export_actions = "export" ∷ []

abbrev pub review_actions : List String
review_actions = "review" ∷ "approve_review" ∷ "reject_review" ∷ []

abbrev pub quarantine_actions : List String
quarantine_actions = "quarantine" ∷ "release_quarantine" ∷ []

abbrev pub admin_actions : List String
admin_actions = "admin" ∷ "configure_policy" ∷ "manage_role" ∷ "delete_resource" ∷ []

abbrev pub resource_types : List String
resource_types = "run" ∷ "artifact" ∷ "report" ∷ "manual_review" ∷ "export" ∷ "admin" ∷ "audit" ∷ []

abbrev pub all_actions : List String
all_actions =
    read_actions ++ (export_actions ++ (review_actions ++ (quarantine_actions ++ admin_actions)))

-- A dict with texts as keys; the first entry of a key counts.
abbrev pub find {ℓ} : {A : Type ℓ} → String → List (String × A) → A → A
find k [] d = d
find k ((k', v) ∷ rest) d = let later = find k rest d in if k === k' then v else later

abbrev pub reading : List (String × List String)
reading = ("run", read_actions) ∷ ("report", read_actions) ∷ ("artifact", read_actions) ∷ []

-- ROLE_PERMISSIONS
unfoldable pub role_permissions : List (String × List (String × List String))
role_permissions =
    ("admin", ("*", all_actions) ∷ [])
    ∷ (
      "maintainer",
      reading
          ++ (("manual_review", read_actions ++ review_actions)
              ∷ ("export", export_actions)
              ∷ ("audit", read_actions)
              ∷ []),
    )
    ∷ (
      "reviewer",
      reading ++ (("manual_review", read_actions ++ review_actions) ∷ ("audit", read_actions) ∷ []),
    )
    ∷ (
      "auditor",
      reading
          ++ (("manual_review", read_actions)
              ∷ ("audit", read_actions)
              ∷ ("export", export_actions)
              ∷ []),
    )
    ∷ ("viewer", reading)
    ∷ []

-- CLASSIFICATION_LEVEL
unfoldable pub classification_level : List (String × ℕ)
classification_level =
    ("public", 0) ∷ ("internal", 1) ∷ ("confidential", 2) ∷ ("restricted", 3) ∷ []

-- ROLE_CLASSIFICATION_LIMIT
unfoldable pub role_classification_limit : List (String × String)
role_classification_limit =
    ("admin", "restricted")
    ∷ ("maintainer", "confidential")
    ∷ ("reviewer", "confidential")
    ∷ ("auditor", "restricted")
    ∷ ("viewer", "internal")
    ∷ []

-- The keys of the dictionaries that evaluate_rbac reads; none is a missing key.
pub record Actor : Type 0 where
  pub actor_id : Option String
  pub id : Option String
  pub actor : Option String
  pub role : Option String
  pub scopes : List String
  pub source_refs : List String

pub record Resource : Type 0 where
  pub type : Option String
  pub id : Option String
  pub classification : Option String
  pub quarantine_status : Option String

pub record Request : Type 0 where
  pub action : Option String
  pub resource_type : Option String
  pub resource_id : Option String
  pub classification : Option String
  pub quarantine_status : Option String
  pub access_level : Option String
  pub request_id : Option String
  pub resource : Resource
  pub source_refs : List String

pub data Verdict : Type 0 where
  allowed denied : Verdict

pub record RbacDecision : Type 0 where
  pub actor_id : String
  pub role : String
  pub action : String
  pub resource_type : String
  pub resource_id : String
  pub decision : Verdict
  pub reason : String
  pub allowed_scope : String
  pub readiness_effect : String
  pub source_refs : List String
  pub verdict_mutated : Bool
  pub request_id : String
  pub classification : String
  pub quarantine_status : String

abbrev pub or_list : List String → List String → List String
or_list [] ys = ys
or_list (x ∷ xs) ys = x ∷ xs

unfoldable pub role_allows : String → String → String → Bool
role_allows role resource_type action =
    let permissions = find role role_permissions [] in
    member action (find "*" permissions []) || member action (find resource_type permissions [])

unfoldable pub classification_allows : String → String → Bool
classification_allows role classification =
    leb (find classification classification_level 0)
      (find (find role role_classification_limit "public") classification_level 0)

unfoldable pub default_allowed_scope : String → String → String → String
default_allowed_scope resource_type access_level classification =
    if resource_type === "artifact"
    then if access_level === "" then "safe_metadata" else access_level
    else classification

-- The local variables of evaluate_rbac.
abbrev pub role_of : Actor → String
role_of a = or_text a.role "viewer"

abbrev pub action_of : Request → String
action_of r = or_text r.action "read"

abbrev pub type_of : Request → String
type_of r = or_text r.resource_type (or_text r.resource.type "")

abbrev pub classification_of : Request → String
classification_of r = or_text r.classification (or_text r.resource.classification "public")

abbrev pub quarantine_of : Request → String
quarantine_of r = or_text r.quarantine_status (or_text r.resource.quarantine_status "none")

abbrev pub access_of : Request → String
access_of r = or_text r.access_level "safe_metadata"

-- _decision, at the local variables.
unfoldable pub decision_of :
    Actor → Request → List String → Verdict → String → String → RbacDecision
decision_of a r refs decision reason scope = record {
  actor_id = or_text a.actor_id (or_text a.id (or_text a.actor "unknown"));
  role = role_of a;
  action = action_of r;
  resource_type = type_of r;
  resource_id = or_text r.resource_id (or_text r.resource.id "");
  decision = decision;
  reason = reason;
  allowed_scope = scope;
  readiness_effect = "pass";
  source_refs = refs;
  verdict_mutated = false;
  request_id = or_text r.request_id "";
  classification = classification_of r;
  quarantine_status = quarantine_of r;
}

-- The guards of evaluate_rbac in their order: the verdict, the reason and the scope.
unfoldable pub judge : Actor → Request → Verdict × (String × String)
judge a r =
    if not (member (type_of r) resource_types)
    then (denied, ("unknown_resource_type", "none"))
    else if type_of r === "artifact" && quarantine_of r === "quarantined"
    then if access_of r === "safe_metadata" && member "safe_metadata" a.scopes
      then (allowed, ("quarantined_artifact_safe_metadata_only", "safe_metadata"))
      else (denied, ("raw_quarantined_artifact_denied", "none"))
    else if type_of r === "export"
        && (access_of r === "raw_artifact" || quarantine_of r === "quarantined")
    then (denied, ("unsafe_export_scope_denied", "none"))
    else if member (action_of r) admin_actions && not (role_of a === "admin")
    then (denied, ("admin_permission_required", "none"))
    else if not (role_allows (role_of a) (type_of r) (action_of r))
    then (denied, ("role_permission_denied", "none"))
    else if not (classification_allows (role_of a) (classification_of r))
    then (denied, ("classification_scope_denied", "none"))
    else (
      allowed,
      (
        "role_permission_allowed",
        default_allowed_scope (type_of r) (access_of r) (classification_of r),
      ),
    )

unfoldable pub evaluate_rbac : Actor → Request → List String → RbacDecision
evaluate_rbac a r refs =
    let (decision, (reason, scope)) = judge a r in
    decision_of a r (or_list refs (or_list r.source_refs a.source_refs)) decision reason scope
