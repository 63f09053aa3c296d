-- ===== src/Retries/Grouping/Backed.antt =====
-- What stands in a group of executions, and why (_execution_groups in retry_aggregation.py).
use harness_auto_test_eviden.Prelude.{
  String, Bool, true, false, Option, none, some, List, [], ◌∷◌, ◌≡◌, refl, sym, ap, ◌∙◌, inl, inr,
  ◌===◌, Occurs, All, All→Occurs, if◌then◌else◌, and_true, Occurs-sort_by,
}
use harness_auto_test_eviden.CodePoints.{Codes, same_codes, same_codes_iff}
use harness_auto_test_eviden.EvidenceGraph.{Edge, add}
use harness_auto_test_eviden.EvidenceGraph.TextSets.{add-Occurs, add_keeps, Occurs-add}
use harness_auto_test_eviden.Identity.{Digests}
use harness_auto_test_eviden.Retries.{Texts, Execution}
use harness_auto_test_eviden.Retries.Grouping.{
  BundleNode, Bundle, Group, node_id, execution_of, set_linked, has_key, put_in_group,
  precedes_group, tests_of, executions_of, sort_tests, linked, canonical_of, components_of_test,
  new_group, put_all, put_tests, merge_matrix, matrix_group_id, execution_groups,
}
use harness_auto_test_eviden.Retries.Grouping.Put.{Occurs-set_execution}
use harness_auto_test_eviden.Retries.Grouping.Unique.{unique_same}
use harness_auto_test_eviden.Retries.Grouping.Links.{Occurs-linked, is_link-parts, IsLinkOf}

module _ {J : Type 0} (texts : Texts) (digests : Digests J) (tests executions : List (BundleNode J))
    (edges : List Edge) where
  -- A test that gives a group its name.
  pub record IsTest (canonical : Codes) (k : String) : Type 0 where
    pub test : BundleNode J
    pub of_tests : Occurs test tests
    pub id : node_id test ≡ k
    pub identity : canonical_of digests test (components_of_test test) ≡ canonical

  -- An edge that brings an execution into a group.
  pub record IsEvidence (g : Group J) (y : Execution) : Type 0 where
    pub test : BundleNode J
    pub execution : BundleNode J
    pub edge : Edge
    pub of_tests : Occurs test tests
    pub of_executions : Occurs execution executions
    pub of_edges : Occurs edge edges
    pub evidences : (edge.kind === "evidenced_by") ≡ true
    pub source : edge.source ≡ node_id test
    pub target : edge.target ≡ node_id execution
    pub same : y ≡ execution_of execution
    pub names : Occurs (node_id test) g.test_ids
    pub matrix :
        matrix_group_id digests (merge_matrix (components_of_test test).matrix (some execution))
        ≡ g.matrix_group

  pub record IsBacked (g : Group J) : Type 0 where
    pub grouped : g.matrix_group ≡ matrix_group_id digests g.matrix
    pub tests_of_group : (k : String) → Occurs k g.test_ids → IsTest g.canonical k
    pub evidence : (y : Execution) → Occurs y g.executions → IsEvidence g y

  module _ (t : BundleNode J) (test : Occurs t tests) where
    abbrev IsLinked : Option (BundleNode J) → Type 0
    IsLinked none = Unit {0}
    IsLinked (some x) = Occurs x executions × IsLinkOf executions (node_id t) (node_id x) edges

    -- A group of the same key, after a round for the test t.
    abbrev grown : Option (BundleNode J) → Group J → Group J
    grown x g = record g {
      test_ids = add (node_id t) g.test_ids;
      executions = set_linked x g.executions;
    }

    grown-IsTest :
        (x : Option (BundleNode J)) (g : Group J) (k : String)
        → (new_group digests t x).canonical ≡ g.canonical
        → IsBacked g
        → Occurs k (add (node_id t) g.test_ids)
        → IsTest g.canonical k
    unfolding new_group
    grown-IsTest x g k q b o = elim (Occurs-add (node_id t) k g.test_ids o) [
      | inl o' ↦ b.tests_of_group k o'
      | inr e ↦ record { test = t; of_tests = test; id = sym e; identity = q }
    ]

    older :
        (x : Option (BundleNode J)) (g : Group J) (y : Execution)
        → IsEvidence g y
        → IsEvidence (grown x g) y
    older x g y e = record {
      test = e.test;
      execution = e.execution;
      edge = e.edge;
      of_tests = e.of_tests;
      of_executions = e.of_executions;
      of_edges = e.of_edges;
      evidences = e.evidences;
      source = e.source;
      target = e.target;
      same = e.same;
      names = add_keeps (node_id t) (node_id e.test) g.test_ids e.names;
      matrix = e.matrix;
    }

    grown-IsEvidence :
        (x : Option (BundleNode J)) (g : Group J) (y : Execution)
        → (new_group digests t x).matrix_group ≡ g.matrix_group
        → IsLinked x
        → IsBacked g
        → Occurs y (set_linked x g.executions)
        → IsEvidence (grown x g) y
    unfolding new_group
    grown-IsEvidence none g y q l b o = older none g y (b.evidence y o)
    grown-IsEvidence (some x) g y q (here, (e, o', link, target)) b o =
        elim (Occurs-set_execution (execution_of x) y g.executions o) [
          | inl same ↦
              (let (kind, source) = is_link-parts executions (node_id t) e link in
                record {
                  test = t;
                  execution = x;
                  edge = e;
                  of_tests = test;
                  of_executions = here;
                  of_edges = o';
                  evidences = kind;
                  source = source;
                  target = target;
                  same = same;
                  names = add-Occurs (node_id t) g.test_ids;
                  matrix = q;
                })
          | inr old ↦ older (some x) g y (b.evidence y old)
        ]

    grown-IsBacked :
        (x : Option (BundleNode J)) (g : Group J)
        → IsLinked x
        → (new_group digests t x).canonical ≡ g.canonical
        → (new_group digests t x).matrix_group ≡ g.matrix_group
        → IsBacked g
        → IsBacked (grown x g)
    grown-IsBacked x g l c m b = record {
      grouped = b.grouped;
      tests_of_group = λ k o. grown-IsTest x g k c b o;
      evidence = λ y o. grown-IsEvidence x g y m l b o;
    }

    put-IsBacked :
        (x : Option (BundleNode J)) (gs : List (Group J))
        → IsLinked x
        → All IsBacked gs
        → All IsBacked (put_in_group (new_group digests t x) (node_id t) x gs)
    unfolding put_in_group new_group
    put-IsBacked x [] l b = (grown-IsBacked x (new_group digests t x) l refl refl (nothing x), tt)
      where
        nothing : (x : Option (BundleNode J)) → IsBacked (new_group digests t x)
        nothing x = record {
          grouped = refl;
          tests_of_group = λ k o. absurd o;
          evidence = λ y o. absurd o;
        }
    put-IsBacked x (g ∷ gs) l (b, bs) =
        by_key (has_key (new_group digests t x).canonical (new_group digests t x).matrix_group g)
          refl (put-IsBacked x gs l bs)
      where
        by_key :
            (k : Bool)
            → has_key (new_group digests t x).canonical (new_group digests t x).matrix_group g ≡ k
            → All IsBacked (put_in_group (new_group digests t x) (node_id t) x gs)
            → All IsBacked (
                if k
                then grown x g ∷ gs
                else g ∷ put_in_group (new_group digests t x) (node_id t) x gs)
        by_key true h later =
            let (c, m) = and_true (same_codes g.canonical (new_group digests t x).canonical) _ h in
            (
              grown-IsBacked x g l (sym ((same_codes_iff _ _).0 c)) (sym ((same_codes_iff _ _).0 m))
                  b,
              bs,
            )
        by_key false h later = (b, later)

    put_all-IsBacked :
        (xs : List (Option (BundleNode J))) (gs : List (Group J))
        → ((x : Option (BundleNode J)) → Occurs x xs → IsLinked x)
        → All IsBacked gs
        → All IsBacked (put_all digests t xs gs)
    unfolding put_all
    put_all-IsBacked [] gs l b = b
    put_all-IsBacked (x ∷ xs) gs l b =
        put_all-IsBacked xs _ (λ x' o. l x' (inr o)) (put-IsBacked x gs (l x (inl refl)) b)

  put_tests-IsBacked :
      (ts : List (BundleNode J)) (gs : List (Group J))
      → ((t : BundleNode J) → Occurs t ts → Occurs t tests)
      → All IsBacked gs
      → All IsBacked (put_tests texts digests executions edges ts gs)
  unfolding put_tests
  put_tests-IsBacked [] gs inside b = b
  put_tests-IsBacked (t ∷ ts) gs inside b =
      put_tests-IsBacked ts _ (λ t' o. inside t' (inr o))
        (put_all-IsBacked t (inside t (inl refl)) (linked texts executions edges t) gs is_linked b)
    where
      is_linked :
          (x : Option (BundleNode J))
          → Occurs x (linked texts executions edges t)
          → IsLinked t (inside t (inl refl)) x
      is_linked none o = tt
      is_linked (some x) o = Occurs-linked texts executions edges t x o

-- The matrix group id of every group is that of its matrix; each test has its own id and the
-- canonical id of the group; and each execution has its own id and is linked by an edge to a test of
-- the group, and its matrix, merged with that of this test, has the matrix group id of the group,
-- which for a matrix that is not empty is made of the first twelve characters of its digest.
pub groups-IsBacked :
    {J : Type 0} (texts : Texts) (digests : Digests J) (bundle : Bundle J) (g : Group J)
    → Occurs g (execution_groups texts digests bundle)
    → IsBacked texts digests (tests_of bundle) (executions_of bundle) bundle.edges g
unfolding execution_groups
groups-IsBacked texts digests bundle g o =
    let tests = tests_of bundle in
    let executions = executions_of bundle in
    All→Occurs (IsBacked texts digests tests executions bundle.edges)
      (put_tests texts digests executions bundle.edges (sort_tests texts tests) [])
      (put_tests-IsBacked texts digests tests executions bundle.edges (sort_tests texts tests) []
        (λ t h. Occurs-sort_by _ t tests h) tt)
      g (Occurs-sort_by precedes_group g _ o)

-- A test of its own id that a group names has the canonical id of the group.
pub named-canonical :
    {J : Type 0} (texts : Texts) (digests : Digests J) (bundle : Bundle J) (g : Group J)
    (t : BundleNode J)
    → IsBacked texts digests (tests_of bundle) (executions_of bundle) bundle.edges g
    → Occurs t (tests_of bundle)
    → Occurs (node_id t) g.test_ids
    → canonical_of digests t (components_of_test t) ≡ g.canonical
named-canonical {J} texts digests bundle g t backed test named =
    let b = backed.tests_of_group (node_id t) named in
    ap (λ (u : BundleNode J). canonical_of digests u (components_of_test u))
      (sym (unique_same "test" bundle.nodes b.test t b.of_tests test b.id))
    ∙ b.identity
