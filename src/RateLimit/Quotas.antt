-- ===== src/RateLimit/Quotas.antt =====
-- What a request that passes has kept to (rate_limit.py).
use harness_auto_test_eviden.Prelude.{
  ℕ, ◌+◌, ◌≤◌, ◌<◌, String, Bool, true, false, not, ◌&&◌, Option, none, List, [], ◌∷◌, ◌++◌, ◌≡◌,
  refl, sym, ◌∙◌, ap, ◌⊎◌, inl, inr, ◌==◌, ltb, ◌===◌, or_text, is_empty, if◌then◌else◌, by_test,
  arith, eq_iff,
}
use harness_auto_test_eviden.RateLimit.{
  Integer, unreadable, negative, natural, RequestData, RateLimitFinding, is_complete, positive_int,
  default_window_seconds, default_quota, tenant_from_input, found_if, abuse_threshold, requests_of,
  quota_of, is_mutating, findings_of_request, evaluate_rate_limit_request,
}

positive_int-bound : (i : Integer) (d : ℕ) → 0 < d → 0 < positive_int i d
unfolding positive_int
positive_int-bound unreadable d h = h
positive_int-bound (negative n) d h = h
positive_int-bound (natural n) d h = by_test (λ x. 0 < x) (n == 0) d n (λ t. h) (λ f. nonzero n f)
  where
    nonzero : (n : ℕ) → (n == 0) ≡ false → 0 < n
    nonzero n f = ground arith

none_found :
    (b : Bool) (code severity : String) (rest : List RateLimitFinding)
    → is_empty (found_if b code severity ++ rest) ≡ true
    → (b ≡ false) × (is_empty rest ≡ true)
none_found true code severity rest h = absurd (cc (h))
none_found false code severity rest h = (refl, h)

neither_over :
    (a b : Bool) (x : RateLimitFinding) (code severity : String)
    → is_empty (if a then x ∷ [] else found_if b code severity) ≡ true
    → (a ≡ false) × (b ≡ false)
neither_over true b x code severity h = absurd (cc (h))
neither_over false true x code severity h = absurd (cc (h))
neither_over false false x code severity h = (refl, refl)

not_both : (a b : Bool) → (a && b) ≡ false → (a ≡ false) ⊎ (b ≡ false)
not_both true b h = inr h
not_both false b h = inl refl

holds : (b : Bool) → not b ≡ false → b ≡ true
holds b h = ground arith

at_most : (a b : ℕ) → ltb a b ≡ false → b ≤ a
at_most a b h = ground arith

-- A text that is given.
abbrev IsNamed : Option String → Type 0
IsNamed o = (or_text o "" === "") ≡ false

own_scope :
    (r : RequestData)
    → r.require_tenant_scope ≡ true
    → r.tenant ≡ none
    → is_complete (tenant_from_input r)
      ≡ (not (or_text r.organization_id "" === "") && not (or_text r.workspace_id "" === ""))
unfolding tenant_from_input
own_scope r q n = rw (n, q) refl

both_named : (a b : Bool) → (not a && not b) ≡ true → (a ≡ false) × (b ≡ false)
both_named a b h = ground arith

module _ (upper : String → String) where
  -- A request inside its quota, with its key where it is wanted, and with its scope where it is
  -- wanted and the input has no tenant
  pub record IsWithin (r : RequestData) : Type 0 where
    pub quota : 0 < quota_of upper r
    pub requests : requests_of upper r ≤ quota_of upper r
    pub no_burst : requests_of upper r ≤ abuse_threshold r (quota_of upper r)
    pub scope :
        r.require_tenant_scope ≡ true
        → r.tenant ≡ none
        → IsNamed r.organization_id × IsNamed r.workspace_id
    pub idempotent : (is_mutating upper r ≡ false) ⊎ ((or_text r.idempotency_key "" === "") ≡ false)
    pub accounted :
        (evaluate_rate_limit_request upper r).remaining + requests_of upper r ≡ quota_of upper r
    pub no_retry : (evaluate_rate_limit_request upper r).retry_after_seconds ≡ none
    pub allowed : (evaluate_rate_limit_request upper r).audit_event.decision ≡ "allow"
    pub reset : 0 < (evaluate_rate_limit_request upper r).reset_after_seconds

  no_findings : (b : Bool) → ◌≡◌ {A = String} (if not b then "hold" else "pass") "pass" → b ≡ true
  no_findings true h = refl
  no_findings false h = absurd (cc ((eq_iff "hold" "pass").1 h))

  no_items : (fs : List RateLimitFinding) → is_empty fs ≡ true → fs ≡ []
  no_items [] h = refl
  no_items (f ∷ fs) h = absurd (cc (h))

  checks :
      (r : RequestData)
      → is_empty (findings_of_request upper r) ≡ true
      → ((r.require_tenant_scope && not (is_complete (tenant_from_input r))) ≡ false)
        × ((is_mutating upper r && or_text r.idempotency_key "" === "") ≡ false)
        × (ltb (abuse_threshold r (quota_of upper r)) (requests_of upper r) ≡ false)
        × (ltb (quota_of upper r) (requests_of upper r) ≡ false)
  unfolding findings_of_request
  checks r q =
      let (a, q) =
        none_found (r.require_tenant_scope && not (is_complete (tenant_from_input r))) _ _ _ q in
      let (b, q) =
        none_found (is_mutating upper r && or_text r.idempotency_key "" === "") _ _ _ q in
      let (c, d) =
        neither_over (ltb (abuse_threshold r (quota_of upper r)) (requests_of upper r))
          (ltb (quota_of upper r) (requests_of upper r)) _ _ _ q in
      (a, b, c, d)

  scope-IsNamed :
      (r : RequestData)
      → r.require_tenant_scope ≡ true
      → r.tenant ≡ none
      → (r.require_tenant_scope && not (is_complete (tenant_from_input r))) ≡ false
      → IsNamed r.organization_id × IsNamed r.workspace_id
  scope-IsNamed r q n h = both_named _ _ (
      sym (own_scope r q n)
      ∙ holds _ (sym (ap (λ b. b && not (is_complete (tenant_from_input r))) q) ∙ h))

  -- A request that passes is inside a positive quota and not above the threshold of abuse; where the
  -- tenant scope is required and the input has no tenant, it gives an organization and a workspace
  -- itself (where the input has a tenant, even an empty one, defaults fill in what is missing); it
  -- has its idempotency key where it changes something; what remains and what is used make the
  -- quota, nothing is to be retried, the window is positive, and the audit event allows it.
  pub pass-IsWithin :
      (r : RequestData) → (evaluate_rate_limit_request upper r).status ≡ "pass" → IsWithin r
  unfolding evaluate_rate_limit_request
  pass-IsWithin r h =
      let clean = no_findings (is_empty (findings_of_request upper r)) h in
      let (scope, idempotent, no_burst, in_quota) = checks r clean in
      let no_finding = no_items _ clean in
      let within = at_most _ _ in_quota in
      record {
        quota = positive_int-bound r.quota default_quota (omega arith);
        requests = within;
        no_burst = at_most _ _ no_burst;
        scope = λ q n. scope-IsNamed r q n scope;
        idempotent = not_both _ _ idempotent;
        accounted = omega (arith, within);
        no_retry = rw no_finding refl;
        allowed = rw no_finding refl;
        reset = positive_int-bound r.window_seconds default_window_seconds (omega arith);
      }
