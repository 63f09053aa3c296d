-- ===== src/Tenants/Isolation.antt =====
-- What a passing decision on a tenant's access means (tenant_isolation.py).
use harness_auto_test_eviden.Prelude.{
  String, Bool, true, false, not, ◌&&◌, List, [], ◌∷◌, ◌≡◌, refl, ◌⊎◌, inl, inr, ◌===◌, member, any,
  get_or, All, any→All, if◌then◌else◌, by_test, and_true, arith, eq_iff, or_text, contains,
}
use harness_auto_test_eviden.Tenants.{
  Access, TenantDecision, deny, surface_of, caller_of, tenant_of, only_tenant, is_inhabited,
  forbidden_keys, check_surface, evaluate_surface, is_allowed, surface_action,
}

module _ (lower : String → String) (a : Access) where
  -- The tenant texts of caller and resource are equal, the role has the permission of the surface,
  -- and the cache key, the export, the support bundle or the telemetry keeps to this tenant.
  pub record IsIsolated : Type 0 where
    pub same_tenant : caller_of a ≡ tenant_of a
    pub granted :
        is_allowed lower
          (or_text a.role "auditor")
          (surface_action (surface_of a)).0
          (surface_action (surface_of a)).1
        ≡ true
    pub cached : surface_of a ≡ "cache" → contains (or_text a.cache_key "") (caller_of a) ≡ true
    pub exported :
        surface_of a ≡ "export"
        → (is_inhabited (get_or a.export_tenants (caller_of a ∷ [])) ≡ true)
          × All (λ t. t ≡ caller_of a) (get_or a.export_tenants (caller_of a ∷ []))
    pub supported :
        surface_of a ≡ "support_bundle"
        → All (λ t. t ≡ caller_of a) (get_or a.metadata_tenants (caller_of a ∷ []))
    pub telemetry :
        surface_of a ≡ "telemetry" → All (λ k. member k forbidden_keys ≡ false) a.telemetry_keys

only_tenant-All :
    (tenant : String) (ts : List String) → only_tenant tenant ts ≡ true → All (λ t. t ≡ tenant) ts
only_tenant-All tenant [] h = tt
only_tenant-All tenant (t ∷ ts) h =
    let (e, rest) = and_true (t === tenant) (only_tenant tenant ts) h in
    ((eq_iff t tenant).0 e, only_tenant-All tenant ts rest)

denied : (code : String) → (deny code).status ≡ "pass" → ⊥
denied code h = absurd (cc ((eq_iff "hold" "pass").1 h))

-- What holds where the decision passes.
record WherePasses (P : Type 0) (d : TenantDecision) : Type 0 where
  at : d.status ≡ "pass" → P

-- A guard that denies did not apply where the decision passes.
guard_passes :
    (P : Type 0) (b : Bool) (code : String) (rest : TenantDecision)
    → (b ≡ false → WherePasses P rest)
    → WherePasses P (if b then deny code else rest)
guard_passes P true code rest h = record { at = λ p. absurd (denied code p) }
guard_passes P false code rest h = h refl

first_holds : (b c : Bool) → b ≡ true → (b && not c) ≡ false → c ≡ true
first_holds b c t h = ground arith

both_false : (b c : Bool) → b ≡ true → (b && c) ≡ false → c ≡ false
both_false b c t h = ground arith

-- A decision that passes is on the audit surface for a global auditor, or: the tenant texts of caller
-- and resource are equal (a missing resource tenant counts as the caller's, a missing caller as the
-- empty text); the role has the permission of the surface; on the cache surface the key contains the
-- caller; on the export surface some tenant is exported and each is the caller; on the support
-- bundle surface each tenant of the metadata is the caller; and on the telemetry surface no key is
-- one of the forbidden ones.
pub passes-IsIsolated :
    (lower : String → String) (a : Access)
    → (evaluate_surface lower a).status ≡ "pass"
    → ((surface_of a ≡ "audit") × (a.global_auditor ≡ true)) ⊎ IsIsolated lower a
unfolding evaluate_surface check_surface
passes-IsIsolated lower a p =
    let P = ((surface_of a ≡ "audit") × (a.global_auditor ≡ true)) ⊎ IsIsolated lower a in
    let tenant = caller_of a in
    let exported = get_or a.export_tenants (tenant ∷ []) in
    let supported = get_or a.metadata_tenants (tenant ∷ []) in
    (by_test (WherePasses P) ((surface_of a === "audit") && a.global_auditor) _ _
        (λ t. record { at = λ _. let (s, g) = and_true _ _ t in inl ((eq_iff _ _).0 s, g) })
        (λ _. guard_passes P (not (caller_of a === tenant_of a)) _ _ (λ same.
          guard_passes P
            (not (
              is_allowed lower (or_text a.role "auditor") (surface_action (surface_of a)).0
                (surface_action (surface_of a)).1))
            _ _
            (λ role.
              guard_passes P
                ((surface_of a === "cache") && not (contains (or_text a.cache_key "") tenant)) _ _
                (λ ca.
                  guard_passes P
                    ((surface_of a === "export")
                      && not (is_inhabited exported && only_tenant tenant exported))
                    _ _
                    (λ ex.
                      guard_passes P
                        ((surface_of a === "support_bundle") && not (only_tenant tenant supported))
                        _ _
                        (λ su.
                          guard_passes P
                            ((surface_of a === "telemetry")
                              && any (λ k. member k forbidden_keys) a.telemetry_keys)
                            _ _
                            (λ te. record {
                              at = λ _. inr (record {
                                same_tenant = (eq_iff _ _).0 (true_of_not _ same);
                                granted = true_of_not _ role;
                                cached = λ q. on_surface "cache" _ q ca;
                                exported = λ q.
                                    let (i, o) = and_true _ _ (on_surface "export" _ q ex) in
                                    (i, only_tenant-All tenant exported o);
                                supported = λ q.
                                    only_tenant-All tenant supported
                                      (on_surface "support_bundle" _ q su);
                                telemetry = λ q.
                                    any→All _ a.telemetry_keys
                                      (both_false _ _ ((eq_iff _ "telemetry").1 q) te);
                              });
                            })))))))).at
      p
  where
    on_surface :
        (s : String) (b : Bool)
        → surface_of a ≡ s
        → ((surface_of a === s) && not b) ≡ false
        → b ≡ true
    on_surface s b q h = first_holds (surface_of a === s) b ((eq_iff _ s).1 q) h

    true_of_not : (b : Bool) → not b ≡ false → b ≡ true
    true_of_not b h = ground arith
