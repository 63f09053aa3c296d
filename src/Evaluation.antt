-- ===== src/Evaluation.antt =====
-- The evaluation of repositories: the governance of their baselines
-- (src/hate/evaluation/baseline_governance.py), and the readiness of a product by the graph of its
-- claims (src/hate/readiness_model.py), and the regressions of a run against its baseline
-- (src/hate/evaluation/regression_engine.py).
pub mod Baseline
pub mod Readiness
pub mod Regressions
