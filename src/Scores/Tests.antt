-- ===== src/Scores/Tests.antt =====
-- A run with full marks for its lineage: a change that touches a risk, whose test has run twice.
use harness_auto_test_eviden.Prelude.{
  insert_by, sort_by, Occurs, ℕ, ◌*◌, ◌≤◌, String, Bool, true, false, none, some, List, [], ◌∷◌,
  ◌≡◌, refl, inl, inr, All,
}
use harness_auto_test_eviden.CodePoints.{strip, strip_start, strip_end, is_space}
use harness_auto_test_eviden.Retries.{Aggregate, Attempt, stable_passed}
use harness_auto_test_eviden.EvidenceGraph.{
  Node, Edge, refs, valid_source_refs, wrong_kinds, has_result, count, node_ids, id_issues,
  first_kind, node_kind, is_executed, external_export, lineage, link_of, add_link, scan,
  analyze_graph,
}
use harness_auto_test_eviden.EvidenceGraph.Integrity.{IsNamed, IsSoundEdge}
use harness_auto_test_eviden.EvidenceGraph.Executed.{IsRequirement, IsEvidence}
use harness_auto_test_eviden.Scores.{
  aete_weights, weighted_total, compute_weighted_score, Provenance, Report,
  all_source_refs_non_empty, lineage_score, score_dimensions,
}
use harness_auto_test_eviden.Scores.Rubric.{IsRubric, scores-IsRubric}
use harness_auto_test_eviden.Scores.Stored.{aete_score, read_score_input, read-score_dimensions}
use harness_auto_test_eviden.Scores.Dimensions.{full_lineage-IsSound}

abbrev id_text : String → String
id_text s = s

abbrev no_order : String → String → Bool
no_order s t = false

abbrev passed_node : String → String → Node
passed_node id kind = record {
  id = id;
  kind = kind;
  data_ = record {
    would_run = false;
    status = some "passed";
    has_contexts = false;
    has_branch_hits = false;
  };
  source_refs = refs (some "report.xml" ∷ []);
}

abbrev sourced_edge : String → String → String → Edge
sourced_edge kind source target = record {
  kind = kind;
  source = source;
  target = target;
  source_refs = refs (some "report.xml" ∷ []);
}

abbrev run_nodes : List Node
run_nodes =
    passed_node "code" "changed_code"
    ∷ passed_node "risk" "risk"
    ∷ passed_node "test" "test"
    ∷ passed_node "run" "execution_evidence"
    ∷ []

abbrev run_edges : List Edge
run_edges =
    sourced_edge "touches" "code" "risk"
    ∷ sourced_edge "requires_test" "risk" "test"
    ∷ sourced_edge "evidenced_by" "test" "run"
    ∷ []

abbrev report : Report
report = record { run_id = "7"; missing_execution = false; has_unsupported = false }

abbrev provenance : Provenance
provenance = record { has_run_id = true; has_issues = false; artifact_count = 1 }

abbrev attempt : ℕ → Attempt
attempt n = record {
  retry = n;
  status = stable_passed;
  missing_shard = false;
  execution_node_ids = "run" ∷ [];
}

abbrev stable : Aggregate
stable = record {
  aggregate_status = stable_passed;
  issues = [];
  attempt_results = attempt 0 ∷ attempt 1 ∷ [];
  declared_flaky = false;
  declared_retry_count = 0;
  expected_count = 1;
}

scores-IsRubric_example :
    (let d =
        score_dimensions id_text no_order run_nodes run_edges report provenance (stable ∷ []) in
      All (λ x. IsRubric x.1) d
      × (compute_weighted_score d ≤ 1000)
      × (500 * compute_weighted_score d ≡ 1000 * weighted_total d aete_weights))
scores-IsRubric_example =
    scores-IsRubric id_text no_order run_nodes run_edges report provenance (stable ∷ [])

read-score_dimensions_example :
    read_score_input (
      aete_score
        (score_dimensions id_text no_order run_nodes run_edges report provenance (stable ∷ [])))
    ≡ none
read-score_dimensions_example =
    read-score_dimensions id_text no_order run_nodes run_edges report provenance (stable ∷ [])

abbrev risk_edge : Edge
risk_edge = sourced_edge "requires_test" "risk" "test"

risk_edge-IsRequirement : IsRequirement id_text no_order run_nodes risk_edge
unfolding node_kind first_kind count valid_source_refs strip strip_start strip_end is_space
risk_edge-IsRequirement = record { requires = refl; sourced = refl; target = inl refl }

full_lineage-IsSound_example :
    All (IsNamed id_text no_order run_nodes) run_nodes
    × All (IsSoundEdge id_text no_order run_nodes "7") run_edges
    × ((f : Edge) × Occurs f run_edges × IsEvidence id_text no_order run_nodes "test" f)
unfolding score_dimensions all_source_refs_non_empty lineage_score analyze_graph scan add_link
    link_of lineage external_export is_executed node_kind first_kind id_issues node_ids count
    has_result sort_by insert_by wrong_kinds valid_source_refs strip strip_start strip_end is_space
full_lineage-IsSound_example =
    full_lineage-IsSound id_text no_order run_nodes run_edges report provenance (stable ∷ [])
      risk_edge refl (inr (inl refl)) risk_edge-IsRequirement
