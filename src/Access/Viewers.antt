-- ===== src/Access/Viewers.antt =====
-- What a viewer is allowed, and what decides on a quarantined artifact (rbac.py).
use harness_auto_test_eviden.Prelude.{
  String, Option, Bool, true, false, ◌||◌, List, [], ◌∷◌, ◌≡◌, refl, ◌⊎◌, inl, inr, ◌===◌, member,
  if◌then◌else◌, arith, eq_iff, ap, ◌∙◌, sym,
}
use harness_auto_test_eviden.Access.{
  Actor, Request, allowed, role_allows, role_of, action_of, type_of, quarantine_of, decision_of,
  judge, evaluate_rbac, role_permissions,
}
use harness_auto_test_eviden.Access.Decisions.{IsQuarantinedAccess, allowed_iff}
use harness_auto_test_eviden.Access.Roles.{role_allows-is_granted}

only_read : (action : String) → member action ("read" ∷ []) ≡ true → action ≡ "read"
only_read action h = ground (arith, eq_iff action "read")

viewer_reads :
    (type action : String)
    → role_allows "viewer" type action ≡ true
    → (action ≡ "read") × (member type ("run" ∷ "report" ∷ "artifact" ∷ []) ≡ true)
unfolding role_allows role_permissions
viewer_reads type action h = by_tests (type === "run") (type === "report") (type === "artifact") h
  where
    by_tests :
        (x y z : Bool)
        → member action
            (if x then "read" ∷ [] else if y then "read" ∷ [] else if z then "read" ∷ [] else [])
          ≡ true
        → (action ≡ "read") × ((x || (y || (z || false))) ≡ true)
    by_tests true y z h = (only_read action h, refl)
    by_tests false true z h = (only_read action h, refl)
    by_tests false false true h = (only_read action h, refl)
    by_tests false false false h = absurd (cc)

-- A viewer is allowed nothing but the access to a quarantined artifact at the level safe_metadata,
-- and reading a run, a report or an artifact.
viewer-reads :
    (a : Actor) (r : Request) (refs : List String)
    → role_of a ≡ "viewer"
    → (evaluate_rbac a r refs).decision ≡ allowed
    → IsQuarantinedAccess a r
      ⊎ ((action_of r ≡ "read") × (member (type_of r) ("run" ∷ "report" ∷ "artifact" ∷ []) ≡ true))
viewer-reads a r refs v h = elim ((allowed_iff a r refs).0 h) [
  | inl s ↦ inl s
  | inr p ↦ inr (
      viewer_reads (type_of r) (action_of r) (
        ap (λ x. role_allows x (type_of r) (action_of r)) (sym v)
        ∙ role_allows-is_granted _ _ _
        ∙ p.role))
]

-- On a quarantined artifact the verdict depends neither on the role of the actor nor on the action
-- that is asked for, administrative actions included.
quarantined-ignores_action :
    (a : Actor) (r : Request) (refs : List String)
    → type_of r ≡ "artifact"
    → quarantine_of r ≡ "quarantined"
    → (role action : Option String)
    → (evaluate_rbac (record a { role = role }) (record r { action = action }) refs).decision
      ≡ (evaluate_rbac a r refs).decision
unfolding evaluate_rbac decision_of judge
quarantined-ignores_action a r refs t q role action = rw (t, q) refl
