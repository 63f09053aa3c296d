-- ===== src/Access/Roles.antt =====
-- What each role may do, told by the actions, and what it may see, told by the classifications; and
-- that the tables of rbac.py say the same.
use harness_auto_test_eviden.Prelude.{
  String, Bool, false, not, ◌&&◌, ◌||◌, List, [], ◌∷◌, ◌≡◌, refl, sym, subst, leb, ◌⊎◌, inl, inr,
  ◌===◌, member, arith, eq_iff, Bool-cases, Occurs, All,
}
use harness_auto_test_eviden.Access.{
  find, role_allows, role_permissions, classification_allows, classification_level,
  role_classification_limit,
}

abbrev reading_roles : List String
reading_roles = "maintainer" ∷ "reviewer" ∷ "auditor" ∷ "viewer" ∷ []

abbrev auditing_roles : List String
auditing_roles = "maintainer" ∷ "reviewer" ∷ "auditor" ∷ []

-- The admin may do every known action on everything. Runs, reports and artifacts are read by every
-- role, manual reviews and the audit by all but viewers; maintainers and reviewers review, and
-- maintainers and auditors export.
abbrev pub is_granted : String → String → String → Bool
is_granted role type action =
    (role === "admin"
      && member action (
          "read" ∷ "export" ∷ "review" ∷ "approve_review" ∷ "reject_review" ∷ "quarantine"
          ∷ "release_quarantine" ∷ "admin" ∷ "configure_policy" ∷ "manage_role" ∷ "delete_resource"
          ∷ []))
    || ((action === "read"
          && ((member type ("run" ∷ "report" ∷ "artifact" ∷ []) && member role reading_roles)
              || (member type ("manual_review" ∷ "audit" ∷ []) && member role auditing_roles)))
        || ((member action ("review" ∷ "approve_review" ∷ "reject_review" ∷ [])
              && (type === "manual_review" && member role ("maintainer" ∷ "reviewer" ∷ [])))
            || (action === "export"
                && (type === "export" && member role ("maintainer" ∷ "auditor" ∷ [])))))

-- Admins and auditors see every classification, maintainers and reviewers all but restricted,
-- viewers all but restricted and confidential, and every other role all but these and internal.
abbrev pub is_cleared : String → String → Bool
is_cleared role classification =
    member role ("admin" ∷ "auditor" ∷ [])
    || (not (classification === "restricted")
        && (member role ("maintainer" ∷ "reviewer" ∷ [])
            || (not (classification === "confidential")
                && (role === "viewer" || not (classification === "internal")))))

-- A text is one of a list, or its test fails for each.
text_cases : (s : String) (ls : List String) → Occurs s ls ⊎ All (λ l. (s === l) ≡ false) ls
text_cases s [] = inr tt
text_cases s (l ∷ ls) = elim (Bool-cases (s === l)) [
  | inl t ↦ inl (inl ((eq_iff s l).0 t))
  | inr f ↦ elim (text_cases s ls) [ inl o ↦ inl (inr o) | inr a ↦ inr (f, a) ]
]

abbrev Agrees : String → String → String → Type 0
Agrees action role type = role_allows role type action ≡ is_granted role type action

abbrev types : List String
types = "run" ∷ "report" ∷ "artifact" ∷ "manual_review" ∷ "export" ∷ "audit" ∷ []

-- A statement on a type of resource, from those on the types of the tables and on every other type.
by_type :
    (P : String → Type 0)
    → P "run"
    → P "report"
    → P "artifact"
    → P "manual_review"
    → P "export"
    → P "audit"
    → ((t : String) → All (λ l. (t === l) ≡ false) types → P t)
    → (t : String) → P t
by_type P p1 p2 p3 p4 p5 p6 other t = elim (text_cases t types) [
  | inl (inl q) ↦ subst P (sym q) p1
  | inl (inr (inl q)) ↦ subst P (sym q) p2
  | inl (inr (inr (inl q))) ↦ subst P (sym q) p3
  | inl (inr (inr (inr (inl q)))) ↦ subst P (sym q) p4
  | inl (inr (inr (inr (inr (inl q))))) ↦ subst P (sym q) p5
  | inl (inr (inr (inr (inr (inr (inl q)))))) ↦ subst P (sym q) p6
  | inl (inr (inr (inr (inr (inr (inr o)))))) ↦ absurd o
  | inr a ↦ other t a
]

module _ (action : String) where
  admin-Agrees : (type : String) → Agrees action "admin" type
  unfolding role_allows role_permissions
  admin-Agrees type = ground arith

  maintainer-Agrees : (type : String) → Agrees action "maintainer" type
  unfolding role_allows role_permissions
  maintainer-Agrees =
      by_type (Agrees action "maintainer") (ground arith) (ground arith) (ground arith)
        (ground arith) (ground arith) (ground arith)
        (λ t h. rw (h.0, h.1.0, h.1.1.0, h.1.1.1.0, h.1.1.1.1.0, h.1.1.1.1.1.0) (ground arith))

  reviewer-Agrees : (type : String) → Agrees action "reviewer" type
  unfolding role_allows role_permissions
  reviewer-Agrees =
      by_type (Agrees action "reviewer") (ground arith) (ground arith) (ground arith) (ground arith)
        (ground arith) (ground arith)
        (λ t h. rw (h.0, h.1.0, h.1.1.0, h.1.1.1.0, h.1.1.1.1.0, h.1.1.1.1.1.0) (ground arith))

  auditor-Agrees : (type : String) → Agrees action "auditor" type
  unfolding role_allows role_permissions
  auditor-Agrees =
      by_type (Agrees action "auditor") (ground arith) (ground arith) (ground arith) (ground arith)
        (ground arith) (ground arith)
        (λ t h. rw (h.0, h.1.0, h.1.1.0, h.1.1.1.0, h.1.1.1.1.0, h.1.1.1.1.1.0) (ground arith))

  viewer-Agrees : (type : String) → Agrees action "viewer" type
  unfolding role_allows role_permissions
  viewer-Agrees =
      by_type (Agrees action "viewer") (ground arith) (ground arith) (ground arith) (ground arith)
        (ground arith) (ground arith)
        (λ t h. rw (h.0, h.1.0, h.1.1.0, h.1.1.1.0, h.1.1.1.1.0, h.1.1.1.1.1.0) (ground arith))

abbrev roles : List String
roles = "admin" ∷ "maintainer" ∷ "reviewer" ∷ "auditor" ∷ "viewer" ∷ []

pub role_allows-is_granted :
    (role type action : String) → role_allows role type action ≡ is_granted role type action
unfolding role_allows role_permissions
role_allows-is_granted role type action = elim (text_cases role roles) [
  | inl (inl q) ↦ subst (λ r. Agrees action r type) (sym q) (admin-Agrees action type)
  | inl (inr (inl q)) ↦ subst (λ r. Agrees action r type) (sym q) (maintainer-Agrees action type)
  | inl (inr (inr (inl q))) ↦
      subst (λ r. Agrees action r type) (sym q) (reviewer-Agrees action type)
  | inl (inr (inr (inr (inl q)))) ↦
      subst (λ r. Agrees action r type) (sym q) (auditor-Agrees action type)
  | inl (inr (inr (inr (inr (inl q))))) ↦
      subst (λ r. Agrees action r type) (sym q) (viewer-Agrees action type)
  | inl (inr (inr (inr (inr (inr o))))) ↦ absurd o
  | inr h ↦
      rw (h.0, h.1.0, h.1.1.0, h.1.1.1.0, h.1.1.1.1.0)
        (sym (
          nothing (action === "read") (member type ("run" ∷ "report" ∷ "artifact" ∷ []))
            (member type ("manual_review" ∷ "audit" ∷ []))
            (member action ("review" ∷ "approve_review" ∷ "reject_review" ∷ []))
            (type === "manual_review") (action === "export") (type === "export")))
]
  where
    nothing :
        (a p q b c d e : Bool)
        → ((a && ((p && false) || (q && false))) || ((b && (c && false)) || (d && (e && false))))
          ≡ false
    nothing a p q b c d e = ground arith

abbrev levels : List String
levels = "public" ∷ "internal" ∷ "confidential" ∷ "restricted" ∷ []

by_level :
    (P : String → Type 0)
    → P "public"
    → P "internal"
    → P "confidential"
    → P "restricted"
    → ((c : String) → All (λ l. (c === l) ≡ false) levels → P c)
    → (c : String) → P c
by_level P p0 p1 p2 p3 other c = elim (text_cases c levels) [
  | inl (inl q) ↦ subst P (sym q) p0
  | inl (inr (inl q)) ↦ subst P (sym q) p1
  | inl (inr (inr (inl q))) ↦ subst P (sym q) p2
  | inl (inr (inr (inr (inl q)))) ↦ subst P (sym q) p3
  | inl (inr (inr (inr (inr o)))) ↦ absurd o
  | inr a ↦ other c a
]

abbrev Clears : String → String → Type 0
Clears role c = classification_allows role c ≡ is_cleared role c

module _ (role : String) where
  -- One role of the table: what is left is a table of its own over the classifications.
  cleared_at :
      Clears role "public"
      → Clears role "internal"
      → Clears role "confidential"
      → Clears role "restricted"
      → Clears role "other"
      → (c : String) → Clears role c
  unfolding classification_allows classification_level
  cleared_at p0 p1 p2 p3 o =
      by_level (Clears role) p0 p1 p2 p3 (λ c h. rw (h.0, h.1.0, h.1.1.0, h.1.1.1.0) o)

pub classification_allows-is_cleared : (role c : String) → Clears role c
unfolding classification_allows classification_level role_classification_limit
classification_allows-is_cleared role c = elim (text_cases role roles) [
  | inl (inl q) ↦ subst (λ r. Clears r c) (sym q) (cleared_at "admin" refl refl refl refl refl c)
  | inl (inr (inl q)) ↦
      subst (λ r. Clears r c) (sym q) (cleared_at "maintainer" refl refl refl refl refl c)
  | inl (inr (inr (inl q))) ↦
      subst (λ r. Clears r c) (sym q) (cleared_at "reviewer" refl refl refl refl refl c)
  | inl (inr (inr (inr (inl q)))) ↦
      subst (λ r. Clears r c) (sym q) (cleared_at "auditor" refl refl refl refl refl c)
  | inl (inr (inr (inr (inr (inl q))))) ↦
      subst (λ r. Clears r c) (sym q) (cleared_at "viewer" refl refl refl refl refl c)
  | inl (inr (inr (inr (inr (inr o))))) ↦ absurd o
  | inr h ↦
      cleared_at role (unknown "public" h refl) (unknown "internal" h refl)
        (unknown "confidential" h refl) (unknown "restricted" h refl) (unknown "other" h refl) c
]
  where
    unknown :
        (x : String)
        → All (λ l. (role === l) ≡ false) roles
        → leb (find x classification_level 0) 0
          ≡ (not (x === "restricted") && (not (x === "confidential") && not (x === "internal")))
        → Clears role x
    unknown x h e = rw (h.0, h.1.0, h.1.1.0, h.1.1.1.0, h.1.1.1.1.0) e
