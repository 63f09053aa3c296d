-- ===== src/Evaluation/Readiness/Go.antt =====
-- A product is ready exactly where every release claim has a supported requirement and nothing
-- speaks against it.
use harness_auto_test_eviden.Prelude.{
  Bool, true, false, not, ◌&&◌, ◌||◌, List, [], ◌∷◌, ◌++◌, ◌≡◌, refl, sym, ap, ◌∙◌, ◌↔◌, map,
  member, select, is_empty, if◌then◌else◌, and_true, All, All-map, arith,
}
use harness_auto_test_eviden.Evaluation.Readiness.{
  ClaimNode, ClaimGraph, graph_finding, go, block, claim_nodes, claim_ids_with_support,
  is_contradiction, ready_dq, build_product_readiness,
}
use harness_auto_test_eviden.Evaluation.Readiness.Supported.{IsSupported, supported→, →supported}

-- The graph has no finding and no contradiction, and every release claim is supported.
pub record IsGo (graph : ClaimGraph) (claims : List ClaimNode) : Type 0 where
  pub no_findings : is_empty graph.findings ≡ true
  pub no_contradiction : All (λ e. is_contradiction e ≡ false) graph.edges
  pub all_supported : All (λ (c : ClaimNode). IsSupported graph.edges c.id) claims

empty→All :
    {A : Type 0} (p : A → Bool) (xs : List A)
    → is_empty (select p xs) ≡ true
    → All (λ x. p x ≡ false) xs
empty→All p [] h = tt
empty→All p (x ∷ xs) h = by_test (p x) refl h (empty→All p xs)
  where
    by_test :
        (b : Bool)
        → p x ≡ b
        → is_empty (if b then x ∷ select p xs else select p xs) ≡ true
        → (is_empty (select p xs) ≡ true → All (λ y. p y ≡ false) xs)
        → All (λ y. p y ≡ false) (x ∷ xs)
    by_test true e h later = absurd (cc (h))
    by_test false e h later = (e, later h)

All→empty :
    {A : Type 0} (p : A → Bool) (xs : List A)
    → All (λ x. p x ≡ false) xs
    → is_empty (select p xs) ≡ true
All→empty p [] h = refl
All→empty p (x ∷ xs) (h, hs) = rw h (All→empty p xs hs)

empty-append : {A : Type 0} (xs ys : List A) → is_empty (xs ++ ys) ≡ (is_empty xs && is_empty ys)
empty-append [] ys = refl
empty-append (x ∷ xs) ys = refl

empty-map : {A B : Type 0} (f : A → B) (xs : List A) → is_empty (map f xs) ≡ is_empty xs
empty-map f [] = refl
empty-map f (x ∷ xs) = refl

status_iff :
    (a b c : Bool)
    → ((if not a || (not b || not c) then block else go) ≡ go)
      ↔ ((a ≡ true) × (b ≡ true) × (c ≡ true))
status_iff a b c = ground arith

-- The report says go exactly where the graph has no finding, no edge contradicts or blocks, and
-- each release claim of the graph, where the last node of an id counts, is derived from a
-- requirement that is supported or reviewed.
pub go_iff :
    (graph : ClaimGraph)
    → ((build_product_readiness graph).overall_status ≡ go) ↔ IsGo graph (claim_nodes graph)
unfolding build_product_readiness
go_iff graph =
    let claims = claim_nodes graph in
    let supported = claim_ids_with_support graph.edges in
    let lacking : ClaimNode → Bool = λ c. not (member c.id supported) in
    let unsupported = select lacking claims in
    let ready = select (λ (c : ClaimNode). c.ready) unsupported in
    let dqs : is_empty (map graph_finding graph.findings ++ map ready_dq ready)
        ≡ (is_empty graph.findings && is_empty ready) =
      empty-append (map graph_finding graph.findings) (map ready_dq ready)
      ∙ ap (λ b. b && is_empty (map ready_dq ready)) (empty-map graph_finding graph.findings)
      ∙ ap (λ b. is_empty graph.findings && b) (empty-map ready_dq ready) in
    (
      λ h.
          let (a, b, c) = (status_iff _ _ _).0 h in
          let (scanned, _) = and_true (is_empty graph.findings) _ (sym dqs ∙ a) in
          record {
            no_findings = scanned;
            no_contradiction = empty→All is_contradiction graph.edges c;
            all_supported =
                All-map (λ (n : ClaimNode) k. supported→ graph.edges n.id (false_not _ k)) claims
                  (empty→All lacking claims b);
          },
      λ g.
          let none = All→empty lacking claims (
            All-map (λ (n : ClaimNode) k. ap not (→supported graph.edges n.id k)) claims
              g.all_supported) in
          (status_iff _ _ _).1 (
            dqs ∙ rw g.no_findings (no_ready unsupported none),
            none,
            All→empty is_contradiction graph.edges g.no_contradiction,
          ),
    )
  where
    false_not : (b : Bool) → not b ≡ false → b ≡ true
    false_not b h = ground arith

    no_ready :
        (xs : List ClaimNode)
        → is_empty xs ≡ true
        → is_empty (select (λ (c : ClaimNode). c.ready) xs) ≡ true
    no_ready [] h = refl
    no_ready (x ∷ xs) h = absurd (cc (h))
