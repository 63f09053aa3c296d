-- ===== src/Identity/RoundTrip.antt =====
-- A normalized canonical id is read back as the components that it was printed from.
use harness_auto_test_eviden.Prelude.{
  Bool, true, false, none, [], ◌∷◌, ◌++◌, ◌≡◌, refl, sym, ap, ◌∙◌, map, if◌then◌else◌, Bool-cases,
  inl, inr, arith,
}
use harness_auto_test_eviden.CodePoints.{Codes, codes, starts_with}
use harness_auto_test_eviden.Identity.{
  colon, or_codes, has_colon, split_once, split_double, parts_of, join_double, normalize_source_ref,
  slashed, print_id, first_part, TestFields, Components, Digests, no_value, identity_components,
  components_of, normalized_canonical_test_id,
}
use harness_auto_test_eviden.Identity.Cuts.{
  is_part, split_once-append, split_double_some, join-split_double, parts_of-print_id,
}

slashed_twice : (s : Codes) → map slashed (map slashed s) ≡ map slashed s
slashed_twice [] = refl
slashed_twice (c ∷ s) = ground (arith, slashed_twice s)

normalize_twice :
    (s : Codes) → normalize_source_ref (normalize_source_ref s) ≡ normalize_source_ref s
unfolding normalize_source_ref
normalize_twice s = elim (Bool-cases (starts_with (codes "fixture:/") s)) [
  | inl h ↦ rw (h, h) refl
  | inr h ↦ rw h (again (starts_with (codes "fixture:/") (map slashed s)))
]
  where
    again : (b : Bool) → (if b then map slashed s else map slashed (map slashed s)) ≡ map slashed s
    again true = refl
    again false = slashed_twice s

module _ {J : Type 0} where
  -- The data of a node that only its canonical id describes.
  abbrev pub undescribed : TestFields J
  undescribed = record {
    canonical_test_id = none;
    framework = none;
    file = none;
    classname = none;
    class_name = none;
    name = none;
    package_ = none;
    parameters = no_value;
    params = no_value;
    matrix = no_value;
    matrix_values = no_value;
  }

  abbrev pub plain : Codes → Codes → Codes → Codes → Components J
  plain framework file classname name = record {
    framework = framework;
    package_ = [];
    file = file;
    classname = classname;
    name = name;
    parameters = [];
    matrix = [];
  }

  components_of-parts :
      (framework file classname name : Codes)
      → components_of framework (file ∷ classname ∷ split_double name) undescribed
        ≡ plain framework (normalize_source_ref file) classname name
  unfolding components_of
  components_of-parts framework file classname name =
      let (p, ps, e) = split_double_some name in
      rw e (
        ap (plain framework (normalize_source_ref file) classname)
          (ap join_double (sym e) ∙ join-split_double name))

  identity_components-print_id :
      (framework file classname name : Codes)
      → has_colon framework ≡ false
      → is_part file ≡ true
      → is_part classname ≡ true
      → identity_components (print_id framework file classname name) undescribed
        ≡ plain framework (normalize_source_ref file) classname name
  unfolding identity_components
  identity_components-print_id framework file classname name f h k =
      rw
        (
          split_once-append framework
              (file ++ (colon ∷ colon ∷ (classname ++ (colon ∷ colon ∷ name)))) f,
          parts_of-print_id file classname name h k,
        )
        (components_of-parts framework file classname name)

  normalized-print_id :
      (digests : Digests J) (c : Components J)
      → c.parameters ≡ []
      → normalized_canonical_test_id digests c ≡ print_id c.framework c.file c.classname c.name
  unfolding normalized_canonical_test_id
  normalized-print_id digests c h = rw h refl

  file_normalized :
      (id : Codes) (data_ : TestFields J) (c : Components J)
      → identity_components id data_ ≡ c
      → normalize_source_ref c.file ≡ c.file
  unfolding identity_components components_of
  file_normalized id data_ c e =
      ap (λ (x : Components J). normalize_source_ref x.file) (sym e)
      ∙ normalize_twice (or_codes data_.file (first_part (parts_of (split_once id).1)))
      ∙ ap (λ (x : Components J). x.file) e

  -- The normalized id of a test without parameters, whose framework has no colon and whose file and
  -- classname neither hold two colons in a row nor end in one, is read back as its framework, file,
  -- classname and name, and is its own normalized id.
  pub identity_components-normalized :
      (digests : Digests J) (canonical_test_id : Codes) (data_ : TestFields J) (c : Components J)
      → identity_components canonical_test_id data_ ≡ c
      → c.parameters ≡ []
      → has_colon c.framework ≡ false
      → is_part c.file ≡ true
      → is_part c.classname ≡ true
      → (identity_components (normalized_canonical_test_id digests c) undescribed
          ≡ plain c.framework c.file c.classname c.name)
        × (normalized_canonical_test_id digests
              (identity_components (normalized_canonical_test_id digests c) undescribed)
            ≡ normalized_canonical_test_id digests c)
  identity_components-normalized digests id data_ c e p f h k =
      let printed = normalized-print_id digests c p in
      let read =
        ap (λ s. identity_components {J = J} s undescribed) printed
        ∙ identity_components-print_id c.framework c.file c.classname c.name f h k
        ∙ ap (λ s. plain c.framework s c.classname c.name) (file_normalized id data_ c e) in
      (
        read,
        ap (normalized_canonical_test_id digests) read
            ∙ normalized-print_id digests (plain c.framework c.file c.classname c.name) refl
            ∙ sym printed,
      )
