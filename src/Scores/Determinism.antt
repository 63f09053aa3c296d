-- ===== src/Scores/Determinism.antt =====
-- What full marks for determinism say of the executions: the dimension (aete_scoring.py) on the
-- aggregates of groups of executions (retry_aggregation.py).
use harness_auto_test_eviden.Prelude.{
  ℕ, ◌≤◌, true, List, [], ◌∷◌, ◌≡◌, refl, All, length, map, leb, arith, and_true,
}
use harness_auto_test_eviden.EvidenceGraph.{Node, Edge}
use harness_auto_test_eviden.Retries.{
  Texts, Execution, Status, inconclusive, passed, failed, stable_passed, flaky_passed, flaky_failed,
  aggregate_group,
}
use harness_auto_test_eviden.Retries.Soundness.{IsStable, stable_passed-IsStable}
use harness_auto_test_eviden.Scores.{
  Provenance, Report, score_of, is_stable_status, is_stable, score_dimensions,
}
use harness_auto_test_eviden.Scores.Dimensions.{full_determinism-is_stable}

stable_status_lem : (s : Status) → is_stable_status s ≡ true → s ≡ stable_passed
stable_status_lem stable_passed h = refl
stable_status_lem inconclusive h = ground arith
stable_status_lem passed h = ground arith
stable_status_lem failed h = ground arith
stable_status_lem flaky_passed h = ground arith
stable_status_lem flaky_failed h = ground arith

least_two : (n : ℕ) → leb 2 n ≡ true → 2 ≤ n
least_two n h = ground arith

module _ (texts : Texts) where
  -- A group that passes in a stable way, in two attempts or more.
  abbrev pub IsRetried : List Execution → Type 0
  IsRetried g = IsStable texts g × (2 ≤ length (aggregate_group texts g).attempt_results)

  is_stable-IsRetried :
      (groups : List (List Execution))
      → All (λ a. is_stable a ≡ true) (map (aggregate_group texts) groups)
      → All IsRetried groups
  is_stable-IsRetried [] h = tt
  is_stable-IsRetried (g ∷ gs) (h, hs) =
      let a = aggregate_group texts g in
      let (status, tried) = and_true (is_stable_status a.aggregate_status) _ h in
      (
        (
          stable_passed-IsStable texts g (stable_status_lem a.aggregate_status status),
          least_two _ tried,
        ),
        is_stable-IsRetried gs hs,
      )

  -- Where a run has full marks for its determinism, on the aggregates of its groups of executions,
  -- every group has two attempts or more and is stable: it holds an execution, each of its
  -- executions ran and passed and none is declared flaky, and no retry below and no shard beside an
  -- execution is missing.
  pub full_determinism-IsStable :
      (nodes : List Node) (edges : List Edge) (report : Report) (provenance : Provenance)
      (groups : List (List Execution))
      → score_of "determinism_flakiness" (
          score_dimensions texts.lower texts.precedes nodes edges report provenance
            (map (aggregate_group texts) groups))
        ≡ 5
      → All (λ g. IsStable texts g × (2 ≤ length (aggregate_group texts g).attempt_results)) groups
  full_determinism-IsStable nodes edges report provenance groups h =
      let (_, _, _, stable) =
        full_determinism-is_stable texts.lower texts.precedes nodes edges report provenance
          (map (aggregate_group texts) groups) h in
      is_stable-IsRetried groups stable
