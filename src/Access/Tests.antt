-- ===== src/Access/Tests.antt =====
-- Access requests of a viewer and of an admin.
use harness_auto_test_eviden.Prelude.{none, some, [], ◌∷◌, ◌≡◌, refl}
use harness_auto_test_eviden.Access.{
  Actor, Request, Resource, allowed, evaluate_rbac, decision_of, judge, role_allows,
  role_permissions, classification_allows, classification_level, role_classification_limit,
}

abbrev viewer : Actor
viewer = record {
  actor_id = some "v";
  id = none;
  actor = none;
  role = none;
  scopes = "safe_metadata" ∷ [];
  source_refs = [];
}

abbrev nothing : Resource
nothing = record { type = none; id = none; classification = none; quarantine_status = none }

abbrev read_report : Request
read_report = record {
  action = some "read";
  resource_type = some "report";
  resource_id = some "r1";
  classification = some "internal";
  quarantine_status = none;
  access_level = none;
  request_id = none;
  resource = nothing;
  source_refs = [];
}

abbrev delete_quarantined : Request
delete_quarantined = record read_report {
  action = some "delete_resource";
  resource_type = some "artifact";
  quarantine_status = some "quarantined";
}

report_allowed : (evaluate_rbac viewer read_report []).decision ≡ allowed
unfolding evaluate_rbac judge decision_of role_allows role_permissions classification_allows
    classification_level role_classification_limit
report_allowed = refl

-- A viewer's deletion of a quarantined artifact is allowed.
deletion_allowed : (evaluate_rbac viewer delete_quarantined []).decision ≡ allowed
unfolding evaluate_rbac judge decision_of
deletion_allowed = refl
