-- ===== src/Identity/Tests.antt =====
-- The identity of a test of a class, and an index in which two tests share one.
use harness_auto_test_eviden.Prelude.{
  ℕ, ◌≤◌, String, true, false, some, List, [], ◌∷◌, ◌≡◌, refl, ◌↔◌, map,
}
use harness_auto_test_eviden.CodePoints.{Codes, codes}
use harness_auto_test_eviden.Identity.{
  split_once, cut_colon, split_double, normalize_source_ref, holds, Digests, TestFields, Components,
  TestNode, identity_components, components_of, normalized_canonical_test_id, normalized_of,
  build_canonical_identity_index,
}
use harness_auto_test_eviden.Identity.RoundTrip.{undescribed, plain, identity_components-normalized}
use harness_auto_test_eviden.Identity.Duplicates.{occurrences, duplicates_iff}

abbrev plain_digests : Digests ℕ
plain_digests = record { of_text = λ s. s; of_mapping = λ m. codes "0123456789abcdef" }

-- The file comes with backslashes and beside the canonical id.
abbrev windows_fields : TestFields ℕ
windows_fields = record undescribed { file = some (codes "C:\\tests\\a.py") }

abbrev windows_id : Codes
windows_id = codes "pytest:old.py::C::m::n"

abbrev windows_components : Components ℕ
windows_components = plain (codes "pytest") (codes "C:/tests/a.py") (codes "C") (codes "m::n")

windows_read : identity_components windows_id windows_fields ≡ windows_components
unfolding identity_components components_of split_once cut_colon split_double normalize_source_ref
windows_read = refl

identity_components-normalized_example :
    (identity_components (codes "pytest:C:/tests/a.py::C::m::n") undescribed ≡ windows_components)
    × (normalized_canonical_test_id plain_digests
          (identity_components (codes "pytest:C:/tests/a.py::C::m::n") undescribed)
        ≡ codes "pytest:C:/tests/a.py::C::m::n")
unfolding normalized_canonical_test_id
identity_components-normalized_example =
    identity_components-normalized plain_digests windows_id windows_fields windows_components
      windows_read refl refl refl refl

abbrev named_test : String → Codes → TestNode ℕ
named_test id canonical = record {
  id = id;
  kind = "test";
  data_ = record windows_fields { canonical_test_id = some canonical };
}

abbrev two_tests : List (TestNode ℕ)
two_tests = named_test "t0" windows_id ∷ named_test "t1" (codes "pytest:x.py::C::m::n") ∷ []

duplicates_iff_example :
    (let index = build_canonical_identity_index plain_digests two_tests in
      ((s : Codes)
        → (holds s index.duplicate_normalized_ids ≡ true)
          ↔ (2 ≤ occurrences s (map normalized_of index.identities)))
      × ((index.has_duplicates ≡ false)
          ↔ ((s : Codes) → occurrences s (map normalized_of index.identities) ≤ 1)))
duplicates_iff_example = duplicates_iff plain_digests two_tests
