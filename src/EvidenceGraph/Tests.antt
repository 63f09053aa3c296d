-- ===== src/EvidenceGraph/Tests.antt =====
-- A change that touches a risk, whose test has run.
use harness_auto_test_eviden.Prelude.{
  insert_by, sort_by, String, Bool, false, some, List, [], ◌∷◌, ◌≡◌, refl, inl,
}
use harness_auto_test_eviden.CodePoints.{strip, strip_start, strip_end, is_space}
use harness_auto_test_eviden.EvidenceGraph.{
  Node, Edge, refs, edge_kind_mismatch, unresolved_edge_endpoint, valid_source_refs, wrong_kinds,
  has_result, count, node_ids, id_issues, first_kind, node_kind, is_executed, external_export,
  lineage, link_of, add_link, scan, analyze_graph,
}
use harness_auto_test_eviden.EvidenceGraph.Executed.{IsRequirement}
use harness_auto_test_eviden.EvidenceGraph.Integrity.{IsSoundEdge}

abbrev as_is : String → String
as_is s = s

abbrev any_order : String → String → Bool
any_order s t = false

abbrev node : String → String → Node
node id kind = record {
  id = id;
  kind = kind;
  data_ = record {
    would_run = false;
    status = some "passed";
    has_contexts = false;
    has_branch_hits = false;
  };
  source_refs = refs (some "report.xml" ∷ []);
}

abbrev edge : String → String → String → Edge
edge kind source target = record {
  kind = kind;
  source = source;
  target = target;
  source_refs = refs (some "report.xml" ∷ []);
}

abbrev nodes : List Node
nodes =
    node "code" "changed_code"
    ∷ node "risk" "risk"
    ∷ node "test" "test"
    ∷ node "run" "execution_evidence"
    ∷ []

-- A decision that goes to a node, and an edge to a node that is not there
broken :
    (analyze_graph as_is any_order nodes "7"
      (edge "decides" "risk" "test" ∷ edge "touches" "code" "x" ∷ [])).issues
    ≡ edge_kind_mismatch 0 "decides" ∷ unresolved_edge_endpoint 1 ("to" ∷ []) ∷ []
unfolding analyze_graph scan add_link link_of lineage external_export is_executed node_kind
    first_kind id_issues node_ids count has_result sort_by insert_by wrong_kinds valid_source_refs
    strip strip_start strip_end is_space
broken = refl

abbrev risk_edge : Edge
risk_edge = edge "requires_test" "risk" "test"

risk_edge-IsRequirement : IsRequirement as_is any_order nodes risk_edge
unfolding node_kind first_kind count valid_source_refs strip strip_start strip_end is_space
risk_edge-IsRequirement = record { requires = refl; sourced = refl; target = inl refl }

risk_edge-IsSoundEdge : IsSoundEdge as_is any_order nodes "7" risk_edge
unfolding node_kind first_kind count wrong_kinds external_export strip strip_start strip_end
    is_space
risk_edge-IsSoundEdge = record {
  source = refl;
  target = inl refl;
  kinds = refl;
  decision = inl refl;
}
