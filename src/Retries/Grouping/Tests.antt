-- ===== src/Retries/Grouping/Tests.antt =====
-- The groups of a small bundle.
use harness_auto_test_eviden.Prelude.{[], ◌∷◌, refl, inl, Occurs}
use harness_auto_test_eviden.Retries.Grouping.{tests_of, executions_of, execution_groups}
use harness_auto_test_eviden.Retries.Grouping.Backed.{IsBacked, groups-IsBacked}
use harness_auto_test_eviden.Retries.Grouping.Samples.{
  plain_texts, plain_digests, evidence_edge, passed_bundle, sample_group, one_group,
}

group-Occurs : Occurs sample_group (execution_groups plain_texts plain_digests passed_bundle)
group-Occurs = rw one_group (inl refl)

groups-IsBacked_example :
    IsBacked plain_texts plain_digests
      (tests_of passed_bundle)
      (executions_of passed_bundle)
      (evidence_edge "r1" ∷ evidence_edge "r0" ∷ [])
      sample_group
groups-IsBacked_example =
    groups-IsBacked plain_texts plain_digests passed_bundle sample_group group-Occurs
