-- ===== src/Evaluation/Readiness/Supported.antt =====
-- The claims that the edges of a graph support.
use harness_auto_test_eviden.Prelude.{
  String, Bool, true, false, ◌&&◌, ◌||◌, List, [], ◌∷◌, ◌++◌, ◌≡◌, refl, sym, ap, ◌∙◌, ◌===◌,
  ===-refl, eq_iff, member, any, if◌then◌else◌, and_true, Occurs, any→Occurs, Occurs→any, arith,
}
use harness_auto_test_eviden.EvidenceGraph.{add}
use harness_auto_test_eviden.Evaluation.Readiness.{
  ClaimEdge, Support, add_claim, claims_of, is_claim_edge, is_support_edge, support_step,
  scan_support, collect_claims, claim_ids_with_support,
}

member_same : (s t : String) (ts : List String) → (s === t) ≡ true → member s ts ≡ member t ts
member_same s t ts h = ap (λ u. member u ts) ((eq_iff s t).0 h)

member-append :
    (s : String) (ts us : List String) → member s (ts ++ us) ≡ (member s ts || member s us)
member-append s [] us = refl
member-append s (t ∷ ts) us = ground (arith, member-append s ts us)

member-add : (s t : String) (ts : List String) → member s (add t ts) ≡ (s === t || member s ts)
member-add s t ts = ground (arith, member_same s t ts, member-append s ts (t ∷ []))

-- A claim is held under a requirement after a round where it was, or where the round adds it.
claims_of-add_claim :
    (r c k d : String) (m : List (String × List String))
    → member c (claims_of r (add_claim k d m)) ≡ ((k === r && c === d) || member c (claims_of r m))
unfolding claims_of add_claim
claims_of-add_claim r c k d [] = ground (arith, eq_iff k r)
claims_of-add_claim r c k d ((j, cs) ∷ m) =
    ground
      (arith, eq_iff j k, eq_iff k r, eq_iff j r, member-add c d cs, claims_of-add_claim r c k d m)

abbrev claims_edge : String → String → ClaimEdge → Bool
claims_edge r c e = is_claim_edge e && (e.target === r && c === e.source)

abbrev supports_edge : String → ClaimEdge → Bool
supports_edge r e = is_support_edge e && r === e.source

scan-claims :
    (r c : String) (es : List ClaimEdge) (s : Support)
    → member c (claims_of r (scan_support es s).requirement_to_claims)
      ≡ (any (claims_edge r c) es || member c (claims_of r s.requirement_to_claims))
unfolding scan_support
scan-claims r c [] s = refl
scan-claims r c (e ∷ es) s =
    scan-claims r c es (support_step e s) ∙ one (is_claim_edge e) (any (claims_edge r c) es)
  where
    one :
        (b a : Bool)
        → (a
            || member c (
                claims_of r (
                  if b
                  then add_claim e.target e.source s.requirement_to_claims
                  else s.requirement_to_claims)))
          ≡ (((b && (e.target === r && c === e.source)) || a)
              || member c (claims_of r s.requirement_to_claims))
    one true a =
        rw (claims_of-add_claim r c e.target e.source s.requirement_to_claims) (ground arith)
    one false a = refl

scan-supported :
    (r : String) (es : List ClaimEdge) (s : Support)
    → member r (scan_support es s).supported_requirements
      ≡ (any (supports_edge r) es || member r s.supported_requirements)
unfolding scan_support
scan-supported r [] s = refl
scan-supported r (e ∷ es) s =
    scan-supported r es (support_step e s) ∙ one (is_support_edge e) (any (supports_edge r) es)
  where
    one :
        (b a : Bool)
        → (a
            || member r
                (if b then add e.source s.supported_requirements else s.supported_requirements))
          ≡ (((b && r === e.source) || a) || member r s.supported_requirements)
    one true a = rw (member-add r e.source s.supported_requirements) (ground arith)
    one false a = refl

-- The claims that are collected are those of some requirement.
collect-member :
    (c : String) (rs : List String) (m : List (String × List String))
    → member c (collect_claims rs m) ≡ any (λ r. member c (claims_of r m)) rs
unfolding collect_claims
collect-member c [] m = refl
collect-member c (r ∷ rs) m =
    member-append c (claims_of r m) (collect_claims rs m)
    ∙ ap (λ b. member c (claims_of r m) || b) (collect-member c rs m)

member→any : (s : String) (ts : List String) → member s ts ≡ any (λ t. s === t) ts
member→any s [] = refl
member→any s (t ∷ ts) = ap (λ b. s === t || b) (member→any s ts)

-- A claim is derived from a requirement that is supported or reviewed.
pub record IsSupported (edges : List ClaimEdge) (id : String) : Type 0 where
  pub derivation : ClaimEdge
  pub support : ClaimEdge
  pub of_edges : Occurs derivation edges
  pub among_edges : Occurs support edges
  pub derives : is_claim_edge derivation ≡ true
  pub supports : is_support_edge support ≡ true
  pub claim : derivation.source ≡ id
  pub requirement : derivation.target ≡ support.source

abbrev no_support : Support
no_support = record { requirement_to_claims = []; supported_requirements = [] }

module _ (edges : List ClaimEdge) (id : String) where
  abbrev scanned : Support
  scanned = scan_support edges no_support

  claims_test : String → Bool
  claims_test r = member id (claims_of r scanned.requirement_to_claims)

  pub supported→ : member id (claim_ids_with_support edges) ≡ true → IsSupported edges id
  unfolding claim_ids_with_support claims_test claims_of
  supported→ h =
      let (r, o, held) = any→Occurs claims_test scanned.supported_requirements (
        sym (collect-member id scanned.supported_requirements scanned.requirement_to_claims) ∙ h) in
      let (d, of_edges, derives) =
        any→Occurs (claims_edge r id) edges
          (or_last _ (sym (scan-claims r id edges no_support) ∙ held)) in
      let (s, among, supports) = any→Occurs (supports_edge r) edges (
        or_last _ (
          sym (scan-supported r edges no_support)
          ∙ (member→any r scanned.supported_requirements
              ∙ Occurs→any (λ t. r === t) r scanned.supported_requirements o (===-refl r)))) in
      let (derivation, ends) = and_true (is_claim_edge d) _ derives in
      let (target, source) = and_true (d.target === r) (id === d.source) ends in
      let (support, from) = and_true (is_support_edge s) (r === s.source) supports in
      record {
        derivation = d;
        support = s;
        of_edges = of_edges;
        among_edges = among;
        derives = derivation;
        supports = support;
        claim = sym ((eq_iff id d.source).0 source);
        requirement = (eq_iff d.target r).0 target ∙ (eq_iff r s.source).0 from;
      }
    where
      or_last : (b : Bool) → (b || false) ≡ true → b ≡ true
      or_last true h = refl
      or_last false h = h

  pub →supported : IsSupported edges id → member id (claim_ids_with_support edges) ≡ true
  unfolding claim_ids_with_support claims_test claims_of
  →supported s =
      let r = s.support.source in
      let held : member r scanned.supported_requirements ≡ true =
        scan-supported r edges no_support
        ∙ ap (λ b. b || false)
            (Occurs→any (supports_edge r) s.support edges s.among_edges
              (rw s.supports (===-refl r))) in
      let listed : member id (claims_of r scanned.requirement_to_claims) ≡ true =
        scan-claims r id edges no_support
        ∙ ap (λ b. b || false)
            (Occurs→any (claims_edge r id) s.derivation edges s.of_edges (
              rw
                (
                  s.derives,
                  (eq_iff s.derivation.target r).1 s.requirement,
                  (eq_iff id s.derivation.source).1 (sym s.claim),
                )
                refl)) in
      let (t, o, same) =
        any→Occurs (λ t. r === t) scanned.supported_requirements
          (sym (member→any r scanned.supported_requirements) ∙ held) in
      collect-member id scanned.supported_requirements scanned.requirement_to_claims
      ∙ Occurs→any claims_test t scanned.supported_requirements o (
          ap (λ u. member id (claims_of u scanned.requirement_to_claims))
            (sym ((eq_iff r t).0 same))
          ∙ listed)
