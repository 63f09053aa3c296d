-- ===== src/Scores/Rubric.antt =====
-- Every dimension is a value of the rubric (aete_scoring.py, p1a_scores.py).
use harness_auto_test_eviden.Prelude.{
  ℕ, ◌+◌, ◌*◌, ◌/◌, ◌≤◌, String, Bool, true, ◌||◌, List, ◌≡◌, refl, ◌==◌, if◌then◌else◌, by_test,
  All, arith,
}
use harness_auto_test_eviden.EvidenceGraph.{Node, Edge, GraphAnalysis}
use harness_auto_test_eviden.Retries.{Aggregate}
use harness_auto_test_eviden.Scores.{
  aete_weights, weighted_total, compute_weighted_score, Provenance, provenance_score,
  determinism_score, lineage_score, Report, oracle_score, coverage_score, corroboration_score,
  score_dimensions,
}

-- number in (0, 1, 3, 5)
abbrev pub is_rubric : ℕ → Bool
is_rubric n = n == 0 || (n == 1 || (n == 3 || n == 5))

pub record IsRubric (n : ℕ) : Type 0 where
  pub is_value : is_rubric n ≡ true

rubric_bound : (n : ℕ) → IsRubric n → n ≤ 5
rubric_bound n h = at_most n h.is_value
  where
    at_most : (n : ℕ) → is_rubric n ≡ true → n ≤ 5
    at_most n q = ground arith

value_0 : IsRubric 0
value_0 = record { is_value = refl }

value_1 : IsRubric 1
value_1 = record { is_value = refl }

value_3 : IsRubric 3
value_3 = record { is_value = refl }

value_5 : IsRubric 5
value_5 = record { is_value = refl }

either_IsRubric : (b : Bool) (x y : ℕ) → IsRubric x → IsRubric y → IsRubric (if b then x else y)
either_IsRubric b x y p q = by_test IsRubric b x y (λ t. p) (λ f. q)

provenance_score-IsRubric : (p : Provenance) → IsRubric (provenance_score p)
unfolding provenance_score
provenance_score-IsRubric p = either_IsRubric _ _ _ value_0 (either_IsRubric _ _ _ value_3 value_1)

determinism_score-IsRubric :
    (t m : Bool) (aggregates : List Aggregate) → IsRubric (determinism_score t m aggregates)
unfolding determinism_score
determinism_score-IsRubric t m aggregates =
    either_IsRubric _ _ _ value_0
      (either_IsRubric _ _ _ value_1 (either_IsRubric _ _ _ value_5 value_3))

lineage_score-IsRubric :
    (nodes : List Node) (edges : List Edge) (graph : GraphAnalysis)
    → IsRubric (lineage_score nodes edges graph)
unfolding lineage_score
lineage_score-IsRubric nodes edges graph =
    either_IsRubric _ _ _ (either_IsRubric _ _ _ value_5 value_3)
      (either_IsRubric _ _ _ value_0 value_1)

module _ (lower : String → String) (precedes : String → String → Bool) where
  oracle_score-IsRubric : (nodes : List Node) → IsRubric (oracle_score lower precedes nodes)
  unfolding oracle_score
  oracle_score-IsRubric nodes =
      either_IsRubric _ _ _ value_5 (either_IsRubric _ _ _ value_3 value_1)

  coverage_score-IsRubric : (nodes : List Node) → IsRubric (coverage_score lower precedes nodes)
  unfolding coverage_score
  coverage_score-IsRubric nodes =
      either_IsRubric _ _ _ value_5 (either_IsRubric _ _ _ value_3 value_0)

  corroboration_score-IsRubric :
      (nodes : List Node) → IsRubric (corroboration_score lower precedes nodes)
  unfolding corroboration_score
  corroboration_score-IsRubric nodes =
      either_IsRubric _ _ _ value_5
        (either_IsRubric _ _ _ value_3 (either_IsRubric _ _ _ value_1 value_0))

  dimensions-IsRubric :
      (nodes : List Node) (edges : List Edge) (report : Report) (provenance : Provenance)
      (aggregates : List Aggregate)
      → All
          (λ d. IsRubric d.1)
          (score_dimensions lower precedes nodes edges report provenance aggregates)
  unfolding score_dimensions
  dimensions-IsRubric nodes edges report provenance aggregates = (
    provenance_score-IsRubric provenance,
    (
      determinism_score-IsRubric _ report.missing_execution aggregates,
      (
        lineage_score-IsRubric nodes edges _,
        (
          oracle_score-IsRubric nodes,
          (
            either_IsRubric _ _ _ value_5 value_1,
            (
              coverage_score-IsRubric nodes,
              (corroboration_score-IsRubric nodes, (either_IsRubric _ _ _ value_3 value_1, tt)),
            ),
          ),
        ),
      ),
    ),
  )

-- The weighted total of dimensions in the order of the weights
mean_bound :
    (a b c d e f g h : ℕ)
    → a ≤ 5
    → b ≤ 5
    → c ≤ 5
    → d ≤ 5
    → e ≤ 5
    → f ≤ 5
    → g ≤ 5
    → h ≤ 5
    → (a * 20 + (b * 15 + (c * 15 + (d * 15 + (e * 15 + (f * 10 + (g * 5 + (h * 5 + 0))))))))
        * 1000
        / 500
      ≤ 1000
mean_bound a b c d e f g h p q r s t u v w = omega (arith, p, q, r, s, t, u, v, w)

exact : (n : ℕ) → 500 * (n * 1000 / 500) ≡ 1000 * n
exact n = omega arith

-- Whatever the graph, the report and the retries are, every dimension of the score is a value of the
-- rubric, and the weighted mean is at most one and loses nothing by rounding to thousandths.
pub scores-IsRubric :
    (lower : String → String) (precedes : String → String → Bool) (nodes : List Node)
    (edges : List Edge) (report : Report) (provenance : Provenance) (aggregates : List Aggregate)
    → (let d = score_dimensions lower precedes nodes edges report provenance aggregates in
        All (λ x. IsRubric x.1) d
        × (compute_weighted_score d ≤ 1000)
        × (500 * compute_weighted_score d ≡ 1000 * weighted_total d aete_weights))
unfolding score_dimensions compute_weighted_score
scores-IsRubric lower precedes nodes edges report provenance aggregates =
    let d = dimensions-IsRubric lower precedes nodes edges report provenance aggregates in
    (
      d,
      mean_bound _ _ _ _ _ _ _ _ (rubric_bound _ d.0) (rubric_bound _ d.1.0)
          (rubric_bound _ d.1.1.0) (rubric_bound _ d.1.1.1.0) (rubric_bound _ d.1.1.1.1.0)
          (rubric_bound _ d.1.1.1.1.1.0) (rubric_bound _ d.1.1.1.1.1.1.0)
          (rubric_bound _ d.1.1.1.1.1.1.1.0),
      exact _,
    )
