-- ===== src/Scores/Dimensions.antt =====
-- What full marks for the lineage and for the determinism of a run rest on (aete_scoring.py).
use harness_auto_test_eviden.Prelude.{
  Occurs, All→Occurs, ℕ, String, Bool, true, false, not, List, ◌≡◌, refl, if◌then◌else◌, All, all,
  all→All, is_empty, and_true, or_false, arith,
}
use harness_auto_test_eviden.EvidenceGraph.{Node, Edge, is_valid, analyze_graph}
use harness_auto_test_eviden.EvidenceGraph.Integrity.{IsNamed, IsSoundEdge, valid-IsSoundEdge}
use harness_auto_test_eviden.EvidenceGraph.Executed.{IsRequirement, IsEvidence, required-IsEvidence}
use harness_auto_test_eviden.Retries.{Aggregate}
use harness_auto_test_eviden.Scores.{
  Provenance, Report, score_of, has_node, is_stable, all_source_refs_non_empty, determinism_score,
  lineage_score, score_dimensions,
}

five_of_lineage :
    (a b c : Bool)
    → ◌≡◌ {A = ℕ} (if a then if b then 5 else 3 else if c then 0 else 1) 5
    → (a ≡ true) × (b ≡ true)
five_of_lineage true true c h = (refl, refl)
five_of_lineage true false c h = absurd (omega (arith, h))
five_of_lineage false b true h = absurd (omega (arith, h))
five_of_lineage false b false h = absurd (omega (arith, h))

five_of_determinism :
    (a b c : Bool)
    → ◌≡◌ {A = ℕ} (if a then 0 else if b then 1 else if c then 5 else 3) 5
    → (a ≡ false) × (b ≡ false) × (c ≡ true)
five_of_determinism true b c h = absurd (omega (arith, h))
five_of_determinism false true c h = absurd (omega (arith, h))
five_of_determinism false false true h = (refl, refl, refl)
five_of_determinism false false false h = absurd (omega (arith, h))

module _ (lower : String → String) (precedes : String → String → Bool) where
  -- Where a run has full marks for its lineage, every node has a usable id of its own, every edge is
  -- sound, and each edge that requires a test, or only has a place for one, has an edge that leads
  -- from this test to an execution with a result.
  pub full_lineage-IsSound :
      (nodes : List Node) (edges : List Edge) (report : Report) (provenance : Provenance)
      (aggregates : List Aggregate) (e : Edge)
      → score_of "traceability_lineage"
          (score_dimensions lower precedes nodes edges report provenance aggregates)
        ≡ 5
      → Occurs e edges
      → IsRequirement lower precedes nodes e
      → All (IsNamed lower precedes nodes) nodes
        × All (IsSoundEdge lower precedes nodes report.run_id) edges
        × ((f : Edge) × Occurs f edges × IsEvidence lower precedes nodes e.target f)
  unfolding score_dimensions lineage_score
  full_lineage-IsSound nodes edges report provenance aggregates e h o required =
      let graph = analyze_graph lower precedes nodes report.run_id edges in
      let (checked, executed) = five_of_lineage _ graph.all_risk_tests_executed _ h in
      let (_, valid) = and_true (all_source_refs_non_empty nodes edges) _ checked in
      let (valid, _) = and_true (is_valid graph) graph.has_risk_test_links valid in
      let (named, sound) = valid-IsSoundEdge lower precedes nodes report.run_id edges valid in
      let sound_edge =
        All→Occurs (IsSoundEdge lower precedes nodes report.run_id) edges sound e o in
      (
        named,
        sound,
        required-IsEvidence lower precedes nodes report.run_id edges e executed o sound_edge
            required,
      )

  -- Where a run has full marks for its determinism, it has tests and aggregates, no execution is
  -- missing, and every aggregate has passed in a stable way, in two attempts or more.
  pub full_determinism-is_stable :
      (nodes : List Node) (edges : List Edge) (report : Report) (provenance : Provenance)
      (aggregates : List Aggregate)
      → score_of "determinism_flakiness"
          (score_dimensions lower precedes nodes edges report provenance aggregates)
        ≡ 5
      → (has_node "test" nodes ≡ true)
        × (report.missing_execution ≡ false)
        × (is_empty aggregates ≡ false)
        × All (λ a. is_stable a ≡ true) aggregates
  unfolding score_dimensions determinism_score
  full_determinism-is_stable nodes edges report provenance aggregates h =
      let (a, b, c) = five_of_determinism _ _ (all is_stable aggregates) h in
      let (tests, _) = or_false (not (has_node "test" nodes)) _ a in
      let (missing, b) = or_false report.missing_execution _ b in
      let (aggregated, _) = or_false (is_empty aggregates) _ b in
      (there (has_node "test" nodes) tests, missing, aggregated, all→All is_stable aggregates c)
    where
      there : (b : Bool) → not b ≡ false → b ≡ true
      there b q = ground arith
