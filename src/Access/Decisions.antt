-- ===== src/Access/Decisions.antt =====
-- What an access decision means (rbac.py), as two independent descriptions.
use harness_auto_test_eviden.Prelude.{
  String, Bool, true, false, not, ◌&&◌, ◌||◌, List, ◌≡◌, refl, ◌⊎◌, inl, inr, ◌↔◌, ◌===◌, member,
  if◌then◌else◌, arith, eq_iff, and_true, Bool-cases, ap, sym, ◌∙◌,
}
use harness_auto_test_eviden.Access.{
  Actor, Request, Verdict, allowed, denied, resource_types, admin_actions, role_allows,
  classification_allows, default_allowed_scope, role_of, action_of, type_of, classification_of,
  quarantine_of, access_of, decision_of, judge, evaluate_rbac,
}
use harness_auto_test_eviden.Access.Roles.{
  is_granted, is_cleared, role_allows-is_granted, classification_allows-is_cleared,
}

-- The guards of judge, by their outcomes: known type, quarantined artifact, safe metadata, unsafe
-- export, administrative action, role and classification.
abbrev guarded :
    {T : Type 0} (known quarantined safe unsafe admin role classification : Bool)
    (a b c d e f g h : T)
    → Verdict × T
guarded known quarantined safe unsafe admin role classification a b c d e f g h =
    if not known
    then (denied, a)
    else if quarantined
    then if safe then (allowed, b) else (denied, c)
    else if unsafe
    then (denied, d)
    else if admin
    then (denied, e)
    else if not role
    then (denied, f)
    else if not classification
    then (denied, g)
    else (allowed, h)

allowed_ways :
    {T : Type 0} (known quarantined safe unsafe admin role classification : Bool)
    (a b c d e f g h : T)
    → ((guarded known quarantined safe unsafe admin role classification a b c d e f g h).0
        ≡ allowed)
      ↔ (((known ≡ true) × (quarantined ≡ true) × (safe ≡ true))
          ⊎ ((known ≡ true)
              × (quarantined ≡ false)
              × (unsafe ≡ false)
              × (admin ≡ false)
              × (role ≡ true)
              × (classification ≡ true)))
allowed_ways false q s u ad r cl a b c d e f g h =
    ((λ x. absurd (cc)), (λ x. elim x [ inl y ↦ absurd (cc (y.0)) | inr y ↦ absurd (cc (y.0)) ]))
allowed_ways true true true u ad r cl a b c d e f g h = ((λ x. inl (refl, refl, refl)), (λ x. refl))
allowed_ways true true false u ad r cl a b c d e f g h =
    ((λ x. absurd (cc)), (λ x. elim x [ inl y ↦ absurd (cc (y.2)) | inr y ↦ absurd (cc (y.1)) ]))
allowed_ways true false s true ad r cl a b c d e f g h =
    ((λ x. absurd (cc)), (λ x. elim x [ inl y ↦ absurd (cc (y.1)) | inr y ↦ absurd (cc (y.2)) ]))
allowed_ways true false s false true r cl a b c d e f g h =
    ((λ x. absurd (cc)), (λ x. elim x [ inl y ↦ absurd (cc (y.1)) | inr y ↦ absurd (cc (y.3)) ]))
allowed_ways true false s false false false cl a b c d e f g h =
    ((λ x. absurd (cc)), (λ x. elim x [ inl y ↦ absurd (cc (y.1)) | inr y ↦ absurd (cc (y.4)) ]))
allowed_ways true false s false false true false a b c d e f g h =
    ((λ x. absurd (cc)), (λ x. elim x [ inl y ↦ absurd (cc (y.1)) | inr y ↦ absurd (cc (y.5)) ]))
allowed_ways true false s false false true true a b c d e f g h =
    ((λ x. inr (refl, refl, refl, refl, refl, refl)), (λ x. refl))

and_both : (a b : Bool) → a ≡ true → b ≡ true → (a && b) ≡ true
and_both a b h g = ground arith

-- The tests of the guards, as statements on the texts.
both_iff : (s s' t t' : String) → ((s === s' && t === t') ≡ true) ↔ ((s ≡ s') × (t ≡ t'))
both_iff s s' t t' = ground (arith, eq_iff s s', eq_iff t t')

not_both : (s s' t t' : String) → ((s === s' && t === t') ≡ false) ↔ (s ≡ s' → t ≡ t' → ⊥)
not_both s s' t t' = (
  (λ h e f. absurd (cc (h, (both_iff s s' t t').1 (e, f)))),
  (λ h. elim (Bool-cases (s === s' && t === t')) [
    | inl b ↦ let (e, f) = (both_iff s s' t t').0 b in absurd (h e f)
    | inr n ↦ n
  ]),
)

neither :
    (s s' t t' u u' : String)
    → ((s === s' && (t === t' || u === u')) ≡ false)
      ↔ ((s ≡ s' → t ≡ t' → ⊥) × (s ≡ s' → u ≡ u' → ⊥))
neither s s' t t' u u' = (
  (λ h. (
    (not_both s s' t t').0 (split_false (s === s') (t === t') (u === u') h).0,
    (not_both s s' u u').0 (split_false (s === s') (t === t') (u === u') h).1,
  )),
  (λ h.
      join_false (s === s') (t === t') (u === u') ((not_both s s' t t').1 h.0)
        ((not_both s s' u u').1 h.1)),
)
  where
    split_false : (a b c : Bool) → (a && (b || c)) ≡ false → ((a && b) ≡ false) × ((a && c) ≡ false)
    split_false a b c h = ground arith

    join_false : (a b c : Bool) → (a && b) ≡ false → (a && c) ≡ false → (a && (b || c)) ≡ false
    join_false a b c h g = ground arith

only_if : (b : Bool) (s s' : String) → ((b && not (s === s')) ≡ false) ↔ (b ≡ true → s ≡ s')
only_if true s s' =
    ((λ h _. (eq_iff s s').0 (not_not (s === s') h)), (λ h. ap not ((eq_iff s s').1 (h refl))))
  where
    not_not : (b : Bool) → not b ≡ false → b ≡ true
    not_not b h = ground arith
only_if false s s' = ((λ h t. absurd (cc (t))), (λ h. refl))

module _ (a : Actor) (r : Request) where
  -- The way of a quarantined artifact: neither the role nor the action is asked for.
  pub record IsQuarantinedAccess : Type 0 where
    pub artifact : type_of r ≡ "artifact"
    pub quarantined : quarantine_of r ≡ "quarantined"
    pub access : access_of r ≡ "safe_metadata"
    pub scope : member "safe_metadata" a.scopes ≡ true

  -- The way of every other resource.
  pub record IsPermitted : Type 0 where
    pub known : member (type_of r) resource_types ≡ true
    pub not_quarantined : type_of r ≡ "artifact" → quarantine_of r ≡ "quarantined" → ⊥
    pub not_raw : type_of r ≡ "export" → access_of r ≡ "raw_artifact" → ⊥
    pub export_clean : type_of r ≡ "export" → quarantine_of r ≡ "quarantined" → ⊥
    pub admin : member (action_of r) admin_actions ≡ true → role_of a ≡ "admin"
    pub role : is_granted (role_of a) (type_of r) (action_of r) ≡ true
    pub classification : is_cleared (role_of a) (classification_of r) ≡ true

  pub allowed_iff :
      (refs : List String)
      → ((evaluate_rbac a r refs).decision ≡ allowed) ↔ (IsQuarantinedAccess ⊎ IsPermitted)
  unfolding evaluate_rbac decision_of judge
  allowed_iff refs =
      let known = member (type_of r) resource_types in
      let quarantined = type_of r === "artifact" && quarantine_of r === "quarantined" in
      let safe = access_of r === "safe_metadata" && member "safe_metadata" a.scopes in
      let unsafe =
        type_of r === "export"
        && (access_of r === "raw_artifact" || quarantine_of r === "quarantined") in
      let admin = member (action_of r) admin_actions && not (role_of a === "admin") in
      let ways =
        allowed_ways {T = String × String} known quarantined safe unsafe admin
          (role_allows (role_of a) (type_of r) (action_of r))
          (classification_allows (role_of a) (classification_of r))
          ("unknown_resource_type", "none")
          ("quarantined_artifact_safe_metadata_only", "safe_metadata")
          ("raw_quarantined_artifact_denied", "none") ("unsafe_export_scope_denied", "none")
          ("admin_permission_required", "none") ("role_permission_denied", "none")
          ("classification_scope_denied", "none")
          (
            "role_permission_allowed",
            default_allowed_scope (type_of r) (access_of r) (classification_of r),
          ) in
      (
        (λ h. elim (ways.0 h) [
          | inl (k, q, s) ↦ inl (record {
            artifact = ((both_iff _ _ _ _).0 q).0;
            quarantined = ((both_iff _ _ _ _).0 q).1;
            access = (eq_iff _ _).0 (and_true _ _ s).0;
            scope = (and_true _ _ s).1;
          })
          | inr (k, q, u, d, o, c) ↦ inr (record {
            known = k;
            not_quarantined = (not_both _ _ _ _).0 q;
            not_raw = ((neither _ _ _ _ _ _).0 u).0;
            export_clean = ((neither _ _ _ _ _ _).0 u).1;
            admin = (only_if (member (action_of r) admin_actions) _ _).0 d;
            role = sym (role_allows-is_granted _ _ _) ∙ o;
            classification = sym (classification_allows-is_cleared _ _) ∙ c;
          })
        ]),
        (λ w. ways.1 (elim w [
          | inl m ↦ inl (
            ap (λ t. member t resource_types) m.artifact,
            (both_iff _ _ _ _).1 (m.artifact, m.quarantined),
            and_both _ _ ((eq_iff _ _).1 m.access) m.scope,
          )
          | inr p ↦ inr (
            p.known,
            (not_both _ _ _ _).1 p.not_quarantined,
            (neither _ _ _ _ _ _).1 (p.not_raw, p.export_clean),
            (only_if (member (action_of r) admin_actions) _ _).1 p.admin,
            role_allows-is_granted _ _ _ ∙ p.role,
            classification_allows-is_cleared _ _ ∙ p.classification,
          )
        ])),
      )
