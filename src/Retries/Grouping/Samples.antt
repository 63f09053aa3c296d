-- ===== src/Retries/Grouping/Samples.antt =====
-- A bundle with one test that has passed twice, for the tests.
use harness_auto_test_eviden.Prelude.{
  ℕ, String, List, ◌++◌, false, none, some, [], ◌∷◌, ◌≡◌, refl, inl, inr, Occurs, insert_by,
  sort_by,
}
use harness_auto_test_eviden.CodePoints.{
  Codes, codes, same_codes, before, is_space, strip, strip_start, strip_end,
}
use harness_auto_test_eviden.EvidenceGraph.{Edge, refs}
use harness_auto_test_eviden.Identity.{
  Digests, TestFields, no_value, mapping, split_once, cut_colon, split_double, normalize_source_ref,
  components_of, identity_components, normalized_canonical_test_id,
}
use harness_auto_test_eviden.Retries.{Texts}
use harness_auto_test_eviden.Retries.Grouping.{
  BundleNode, Bundle, Group, execution_of, tests_of, executions_of, times, unique_of_kind, links_of,
  named, all_named, set_execution, merge_keys, merge_matrix, put_in_group, linked, canonical_of,
  components_of_test, new_group, put_all, put_tests, execution_groups,
}

abbrev pub plain_texts : Texts
plain_texts = record { lower = λ s. s; precedes = λ s t. before (codes s) (codes t) }

-- The keys and values of a mapping, one after the other.
abbrev pub written_out : List (Codes × ℕ) → Codes
written_out [] = []
written_out ((k, v) ∷ m) = k ++ (v ∷ written_out m)

abbrev pub plain_digests : Digests ℕ
plain_digests = record { of_text = λ s. s; of_mapping = written_out }

abbrev pub fields_of : Codes → TestFields ℕ
fields_of id = record {
  canonical_test_id = some id;
  framework = none;
  file = none;
  classname = none;
  class_name = none;
  name = none;
  package_ = none;
  parameters = no_value;
  params = no_value;
  matrix = mapping ((codes "os", 7) ∷ []);
  matrix_values = no_value;
}

abbrev pub sample_node : String → String → ℕ → BundleNode ℕ
sample_node id kind retry = record {
  node = record {
    id = id;
    kind = kind;
    data_ = record {
      would_run = false;
      status = some "passed";
      has_contexts = false;
      has_branch_hits = false;
    };
    source_refs = refs (some "report.xml" ∷ []);
  };
  fields = fields_of (codes "pytest:a.py::C::m");
  flaky = false;
  retry_index = some retry;
  attempt_index = none;
  retry_count = 0;
  shard_index = none;
  shard_total = none;
  shard_count = none;
}

abbrev pub test_node : BundleNode ℕ
test_node = sample_node "t" "test" 0

abbrev pub first_run : BundleNode ℕ
first_run = sample_node "r0" "execution_evidence" 0

abbrev pub second_run : BundleNode ℕ
second_run = sample_node "r1" "execution_evidence" 1

abbrev pub evidence_edge : String → Edge
evidence_edge target = record {
  kind = "evidenced_by";
  source = "t";
  target = target;
  source_refs = refs (some "report.xml" ∷ []);
}

abbrev pub passed_bundle : Bundle ℕ
passed_bundle = record {
  nodes = test_node ∷ second_run ∷ first_run ∷ [];
  edges = evidence_edge "r1" ∷ evidence_edge "r0" ∷ [];
}

abbrev pub sample_group : Group ℕ
sample_group = record {
  canonical = codes "pytest:a.py::C::m";
  matrix = (codes "os", 7) ∷ [];
  matrix_group = codes "matrix:os" ++ (7 ∷ []);
  test_ids = "t" ∷ [];
  executions = execution_of first_run ∷ execution_of second_run ∷ [];
}

pub one_group : execution_groups plain_texts plain_digests passed_bundle ≡ sample_group ∷ []
unfolding execution_groups put_tests put_all new_group components_of_test canonical_of linked
    put_in_group merge_matrix merge_keys set_execution all_named named links_of unique_of_kind times
    insert_by sort_by before split_once cut_colon split_double normalize_source_ref components_of
    identity_components normalized_canonical_test_id strip strip_start strip_end is_space same_codes
one_group = refl

pub first-Occurs : Occurs first_run (executions_of passed_bundle)
unfolding unique_of_kind times strip strip_start strip_end is_space
first-Occurs = inr (inl refl)

pub test-Occurs : Occurs test_node (tests_of passed_bundle)
unfolding unique_of_kind times strip strip_start strip_end is_space
test-Occurs = inl refl
