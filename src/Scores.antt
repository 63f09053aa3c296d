-- ===== src/Scores.antt =====
-- The trust score of a run: its eight dimensions (src/hate/p1a_internal/aete_scoring.py), their
-- weighted mean, and the check of a stored score (src/hate/p1a_scores.py). The mean is kept in
-- thousandths: round(…, 3) loses nothing, since the weights add up to 100. The dimensions build on
-- the evidence graph and on the aggregates of the retries; signals and rationales are left out.
pub mod Rubric
pub mod Stored
pub mod Dimensions
pub mod Determinism
pub mod Passed
mod Tests
use Prim.Native.Nat.{◌^◌}
use harness_auto_test_eviden.Prelude.{
  ℕ, ◌+◌, ◌*◌, ◌/◌, String, Bool, true, false, not, ◌&&◌, ◌||◌, Option, none, some, List, [], ◌∷◌,
  map, ◌==◌, leb, ◌===◌, member, any, all, length, is_empty, if◌then◌else◌,
}
use harness_auto_test_eviden.EvidenceGraph.{
  Node, Edge, SourceRefs, no_list, refs, usable_ref, valid_source_refs, GraphAnalysis, is_valid,
  add, has_result, analyze_graph,
}
use harness_auto_test_eviden.Retries.{Status, Aggregate, stable_passed}
use harness_auto_test_eviden.Retries.Summary.{summarize}

-- AETE_WEIGHTS
abbrev pub aete_weights : List (String × ℕ)
aete_weights =
    ("provenance_integrity", 20)
    ∷ ("determinism_flakiness", 15)
    ∷ ("traceability_lineage", 15)
    ∷ ("oracle_strength", 15)
    ∷ ("change_relevance", 15)
    ∷ ("coverage_adequacy", 10)
    ∷ ("cross_signal_corroboration", 5)
    ∷ ("freshness_profile_conformance", 5)
    ∷ []

-- dimensions[name]
abbrev pub score_of : String → List (String × ℕ) → ℕ
score_of name [] = 0
score_of name ((n, v) ∷ rest) = let later = score_of name rest in if name === n then v else later

abbrev pub weighted_total : List (String × ℕ) → List (String × ℕ) → ℕ
weighted_total dimensions [] = 0
weighted_total dimensions ((name, weight) ∷ weights) =
    score_of name dimensions * weight + weighted_total dimensions weights

abbrev pub weight_sum : List (String × ℕ) → ℕ
weight_sum [] = 0
weight_sum ((name, weight) ∷ weights) = weight + weight_sum weights

-- In thousandths
unfoldable pub compute_weighted_score : List (String × ℕ) → ℕ
compute_weighted_score dimensions =
    weighted_total dimensions aete_weights * 1000 / (5 * weight_sum aete_weights)

-- ProvenanceAnalysis, as its score reads it
pub record Provenance : Type 0 where
  pub has_run_id : Bool
  pub has_issues : Bool
  pub artifact_count : ℕ

unfoldable pub provenance_score : Provenance → ℕ
provenance_score p =
    if not p.has_run_id then 0 else if not p.has_issues && not (p.artifact_count == 0) then 3 else 1

abbrev pub has_node : String → List Node → Bool
has_node kind nodes = any (λ n. n.kind === kind) nodes

abbrev pub is_stable_status : Status → Bool
is_stable_status stable_passed = true
is_stable_status _ = false

abbrev pub is_stable : Aggregate → Bool
is_stable a = is_stable_status a.aggregate_status && leb 2 (length a.attempt_results)

unfoldable pub determinism_score : Bool → (missing_execution : Bool) → List Aggregate → ℕ
determinism_score has_tests missing_execution aggregates =
    let retry_summary = summarize aggregates in
    if not has_tests
      || (not (retry_summary.flaky_count == 0) || not (retry_summary.declared_flaky_count == 0))
    then 0
    else if missing_execution
        || (is_empty aggregates || not (retry_summary.inconclusive_count == 0))
    then 1
    else if all is_stable aggregates
    then 5
    else 3

-- _all_source_refs_non_empty
unfoldable pub all_source_refs_non_empty : List Node → List Edge → Bool
all_source_refs_non_empty nodes edges =
    not (is_empty nodes && is_empty edges)
    && (all (λ n. valid_source_refs n.source_refs) nodes
        && all (λ e. valid_source_refs e.source_refs) edges)

abbrev pub some_ref : SourceRefs → Bool
some_ref no_list = false
some_ref (refs items) = any usable_ref items

-- has_any_source_refs of p1a_graph.py
unfoldable pub has_any_source_refs : List Node → List Edge → Bool
has_any_source_refs nodes edges =
    any (λ n. some_ref n.source_refs) nodes || any (λ e. some_ref e.source_refs) edges

unfoldable pub lineage_score : List Node → List Edge → GraphAnalysis → ℕ
lineage_score nodes edges graph =
    if all_source_refs_non_empty nodes edges && (is_valid graph && graph.has_risk_test_links)
    then if graph.all_risk_tests_executed then 5 else 3
    else if not (has_any_source_refs nodes edges)
    then 0
    else 1

-- What the scores read of the export report and of the completeness
pub record Report : Type 0 where
  pub run_id : String
  pub missing_execution : Bool
  pub has_unsupported : Bool

abbrev pub signal_kind_names : List String
signal_kind_names =
    "execution_evidence" ∷ "coverage" ∷ "finding" ∷ "evidence_artifact" ∷ "contract_evidence"
    ∷ "mutation_evidence" ∷ []

module _ (lower : String → String) (precedes : String → String → Bool) where
  abbrev pub has_execution : List Node → Bool
  has_execution nodes =
      any (λ n. n.kind === "execution_evidence" && has_result lower precedes n.data_) nodes

  abbrev pub is_signal : Node → Bool
  is_signal n =
      member n.kind signal_kind_names
      && (not (n.kind === "execution_evidence") || has_result lower precedes n.data_)

  unfoldable pub signal_kinds : List Node → List String
  signal_kinds [] = []
  signal_kinds (n ∷ ns) =
      let rest = signal_kinds ns in if is_signal n then add n.kind rest else rest

  abbrev pub covers_contexts : Node → Bool
  covers_contexts n = n.kind === "coverage" && (n.data_.has_contexts || n.data_.has_branch_hits)

  unfoldable pub oracle_score : List Node → ℕ
  oracle_score nodes =
      if has_node "contract_evidence" nodes || has_node "mutation_evidence" nodes
      then 5
      else if has_node "test" nodes && has_execution nodes
      then 3
      else 1

  unfoldable pub coverage_score : List Node → ℕ
  coverage_score nodes =
      if any covers_contexts nodes then 5 else if has_node "coverage" nodes then 3 else 0

  unfoldable pub corroboration_score : List Node → ℕ
  corroboration_score nodes =
      if leb 3 (length (signal_kinds nodes))
      then 5
      else if has_execution nodes && has_node "coverage" nodes
      then 3
      else if not (is_empty (signal_kinds nodes))
      then 1
      else 0

  -- The dimensions of _score_dimensions_with_signals
  unfoldable pub score_dimensions :
      List Node → List Edge → Report → Provenance → List Aggregate → List (String × ℕ)
  score_dimensions nodes edges report provenance aggregates =
      let graph = analyze_graph lower precedes nodes report.run_id edges in
      ("provenance_integrity", provenance_score provenance)
      ∷ (
        "determinism_flakiness",
        determinism_score (has_node "test" nodes) report.missing_execution aggregates,
      )
      ∷ ("traceability_lineage", lineage_score nodes edges graph)
      ∷ ("oracle_strength", oracle_score nodes)
      ∷ ("change_relevance", if graph.has_changed_risk_links then 5 else 1)
      ∷ ("coverage_adequacy", coverage_score nodes)
      ∷ ("cross_signal_corroboration", corroboration_score nodes)
      ∷ ("freshness_profile_conformance", if not report.has_unsupported then 3 else 1)
      ∷ []
