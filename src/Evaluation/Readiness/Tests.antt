-- ===== src/Evaluation/Readiness/Tests.antt =====
-- A release with one claim, which a reviewed requirement supports.
use harness_auto_test_eviden.Prelude.{true, [], ◌∷◌, ◌≡◌, refl, ◌↔◌}
use harness_auto_test_eviden.Evaluation.Readiness.{
  ClaimNode, ClaimEdge, ClaimGraph, go, block, set_node, nodes_by_id, add_claim, claims_of,
  scan_support, collect_claims, claim_ids_with_support, build_product_readiness, claim_nodes,
}
use harness_auto_test_eviden.Evaluation.Readiness.Go.{IsGo, go_iff}

abbrev claim_node : ClaimNode
claim_node = record {
  id = "release_claim:safe";
  kind = "release_claim";
  ready = true;
  source_refs = [];
}

abbrev derivation : ClaimEdge
derivation = record {
  kind = "derived_from";
  source = "release_claim:safe";
  target = "requirement:1";
}

abbrev review : ClaimEdge
review = record { kind = "reviewed_by"; source = "requirement:1"; target = "review:1" }

abbrev release_graph : ClaimGraph
release_graph = record { nodes = claim_node ∷ []; edges = derivation ∷ review ∷ []; findings = [] }

release_goes : (build_product_readiness release_graph).overall_status ≡ go
unfolding build_product_readiness nodes_by_id set_node claim_ids_with_support scan_support
    collect_claims claims_of add_claim
release_goes = refl

unreviewed_blocks :
    (build_product_readiness (record release_graph { edges = derivation ∷ [] })).overall_status
    ≡ block
unfolding build_product_readiness nodes_by_id set_node claim_ids_with_support scan_support
    collect_claims claims_of add_claim
unreviewed_blocks = refl

go_iff_example :
    ((build_product_readiness release_graph).overall_status ≡ go)
    ↔ IsGo release_graph (claim_nodes release_graph)
go_iff_example = go_iff release_graph
