-- ===== src/Scores/Passed.antt =====
-- What full marks for determinism say of a bundle: its tests, their executions and the edges
-- between them (aete_scoring.py over retry_aggregation.py).
mod Tests
use harness_auto_test_eviden.Prelude.{
  ℕ, ◌≤◌, String, Bool, true, false, Option, none, some, List, [], ◌∷◌, ◌≡◌, refl, sym, ap, ◌∙◌,
  subst, inl, inr, ◌===◌, map, is_empty, Occurs, map-Occurs, All, All→Occurs,
}
use harness_auto_test_eviden.EvidenceGraph.{Edge}
use harness_auto_test_eviden.Identity.{Digests}
use harness_auto_test_eviden.Retries.{
  Texts, Execution, Aggregate, aggregate_group, effective_status,
}
use harness_auto_test_eviden.Retries.Soundness.{IsStable}
use harness_auto_test_eviden.Retries.Grouping.{
  BundleNode, Bundle, Group, node_id, execution_of, tests_of, executions_of, canonical_of,
  components_of_test, execution_groups, build_aggregates,
}
use harness_auto_test_eviden.Retries.Grouping.Kept.{linked-IsGrouped, test-IsGrouped}
use harness_auto_test_eviden.Retries.Grouping.Backed.{groups-IsBacked, named-canonical}
use harness_auto_test_eviden.Scores.{Provenance, Report, score_of, score_dimensions}
use harness_auto_test_eviden.Scores.Determinism.{IsRetried, full_determinism-IsStable}

some_run : (xs : List Execution) → is_empty xs ≡ false → (x : Execution) × Occurs x xs
some_run [] h = absurd (cc (h))
some_run (x ∷ xs) h = (x, inl refl)

module _ {J : Type 0} (texts : Texts) where
  -- The execution ran, passed, and was not declared flaky.
  pub record IsPassed (x : BundleNode J) : Type 0 where
    pub passed : effective_status texts (execution_of x) ≡ "passed"
    pub executed : x.node.data_.would_run ≡ false
    pub not_declared : x.flaky ≡ false

module _ {J : Type 0} (texts : Texts) (digests : Digests J) where
  -- The score of a bundle for its determinism.
  abbrev pub determinism_of : Bundle J → Report → Provenance → ℕ
  determinism_of bundle report provenance = score_of "determinism_flakiness" (
      score_dimensions texts.lower texts.precedes (map (λ (n : BundleNode J). n.node) bundle.nodes)
        bundle.edges report provenance (build_aggregates texts digests bundle))

  -- A test of the same identity, with an execution that passed and the edge between them.
  pub record IsCovered (bundle : Bundle J) (t : BundleNode J) : Type 0 where
    pub test : BundleNode J
    pub execution : BundleNode J
    pub edge : Edge
    pub of_tests : Occurs test (tests_of bundle)
    pub of_executions : Occurs execution (executions_of bundle)
    pub of_edges : Occurs edge bundle.edges
    pub evidences : (edge.kind === "evidenced_by") ≡ true
    pub source : edge.source ≡ node_id test
    pub target : edge.target ≡ node_id execution
    pub passed : IsPassed texts execution
    pub identity :
        canonical_of digests test (components_of_test test)
        ≡ canonical_of digests t (components_of_test t)

  abbrev runs : List (Group J) → List (List Execution)
  runs gs = map (λ (g : Group J). g.executions) gs

  map-runs :
      (gs : List (Group J))
      → map (λ (g : Group J). aggregate_group texts g.executions) gs
        ≡ map (aggregate_group texts) (runs gs)
  map-runs [] = refl
  map-runs (g ∷ gs) = ap (◌∷◌ (aggregate_group texts g.executions)) (map-runs gs)

  module _ (bundle : Bundle J) (report : Report) (provenance : Provenance)
      (full : determinism_of bundle report provenance ≡ 5) where
    aggregates_of_runs :
        build_aggregates texts digests bundle
        ≡ map (aggregate_group texts) (runs (execution_groups texts digests bundle))
    unfolding build_aggregates
    aggregates_of_runs = map-runs (execution_groups texts digests bundle)

    group-IsStable :
        (g : Group J)
        → Occurs g (execution_groups texts digests bundle)
        → IsStable texts g.executions
    group-IsStable g o =
        let groups = runs (execution_groups texts digests bundle) in
        let scored =
          ap
            (λ aggregates. score_of "determinism_flakiness" (
              score_dimensions texts.lower texts.precedes
                (map (λ (n : BundleNode J). n.node) bundle.nodes) bundle.edges report provenance
                aggregates))
            (sym aggregates_of_runs)
          ∙ full in
        let stable =
          full_determinism-IsStable texts (map (λ (n : BundleNode J). n.node) bundle.nodes)
            bundle.edges report provenance groups scored in
        (All→Occurs (IsRetried texts) groups stable g.executions
          (map-Occurs (λ (g : Group J). g.executions) g _ o)).0

    member-IsPassed :
        (g : Group J) (x : BundleNode J)
        → IsStable texts g.executions
        → Occurs (execution_of x) g.executions
        → IsPassed texts x
    member-IsPassed g x s o =
        let (passed, executed) = s.passes (execution_of x) o in
        record {
          passed = passed;
          executed = executed;
          not_declared =
              All→Occurs (λ (y : Execution). y.flaky ≡ false) g.executions s.not_declared
                (execution_of x) o;
        }

    -- Where a bundle has full marks for its determinism, every execution of its own id to which an
    -- edge leads from a test of its own id ran, passed, and was not declared flaky.
    pub full_determinism-IsPassed :
        (t x : BundleNode J) (e : Edge)
        → Occurs t (tests_of bundle)
        → Occurs x (executions_of bundle)
        → Occurs e bundle.edges
        → (e.kind === "evidenced_by") ≡ true
        → e.source ≡ node_id t
        → e.target ≡ node_id x
        → IsPassed texts x
    full_determinism-IsPassed t x e test here o kind source target =
        let (g, in_groups, _, held) =
          linked-IsGrouped texts digests bundle t x e test here o kind source target in
        member-IsPassed g x (group-IsStable g in_groups) held

    -- Where a bundle has full marks for its determinism, every test of its own id has a test of the
    -- same canonical identity, itself or another, from which an edge leads to an execution that ran,
    -- passed, and was not declared flaky.
    pub full_determinism-IsCovered :
        (t : BundleNode J) → Occurs t (tests_of bundle) → IsCovered bundle t
    full_determinism-IsCovered t test =
        let (g, in_groups, named, _) = test-IsGrouped texts digests bundle t test in
        let stable = group-IsStable g in_groups in
        let backed = groups-IsBacked texts digests bundle g in_groups in
        let (y, held) = some_run g.executions stable.some_execution in
        let e = backed.evidence y held in
        record {
          test = e.test;
          execution = e.execution;
          edge = e.edge;
          of_tests = e.of_tests;
          of_executions = e.of_executions;
          of_edges = e.of_edges;
          evidences = e.evidences;
          source = e.source;
          target = e.target;
          passed =
              member-IsPassed g e.execution stable (subst (λ v. Occurs v g.executions) e.same held);
          identity =
              named-canonical texts digests bundle g e.test backed e.of_tests e.names
              ∙ sym (named-canonical texts digests bundle g t backed test named);
        }
