-- ===== src/Retries/Grouping.antt =====
-- The groups of executions that are aggregated together (_execution_groups of
-- src/hate/p1a_internal/retry_aggregation.py): the tests of one canonical id, and their executions
-- in one matrix. Ids, kinds and statuses are those of the evidence graph. Each test is merged with
-- one execution at a time, so that the ValueError of _merge_matrix is out of reach.

pub mod Put
pub mod Unique
pub mod Links
pub mod Kept
pub mod Backed
pub mod Samples
mod Tests
use harness_auto_test_eviden.Prelude.{
  ℕ, suc, String, Bool, true, false, not, ◌&&◌, ◌||◌, Option, none, some, List, [], ◌∷◌, ◌++◌, map,
  ◌==◌, ◌===◌, member, select, is_empty, take, get_or, sort_by, if◌then◌else◌,
}
use harness_auto_test_eviden.CodePoints.{Codes, codes, same_codes, before}
use harness_auto_test_eviden.EvidenceGraph.{Node, Edge, is_blank_text, add, sort_texts}
use harness_auto_test_eviden.Identity.{
  Digests, Value, mapping, TestFields, Components, or_value, sort_keys, identity_components,
  normalized_canonical_test_id,
}
use harness_auto_test_eviden.Retries.{Texts, Execution, Aggregate, aggregate_group}

-- A node of the bundle: its part of the evidence graph, and what identity and retries read of its
-- data. The data's status and would_run are those of the graph.
pub record BundleNode (J : Type 0) : Type 0 where
  pub node : Node
  pub fields : TestFields J
  pub flaky : Bool
  pub retry_index : Option ℕ
  pub attempt_index : Option ℕ
  pub retry_count : ℕ
  pub shard_index : Option ℕ
  pub shard_total : Option ℕ
  pub shard_count : Option ℕ

pub record Bundle (J : Type 0) : Type 0 where
  pub nodes : List (BundleNode J)
  pub edges : List Edge

pub record Group (J : Type 0) : Type 0 where
  pub canonical : Codes
  pub matrix : List (Codes × J)
  pub matrix_group : Codes
  pub test_ids : List String
  pub executions : List Execution

-- group["executions"][execution["id"]] = execution
unfoldable pub set_execution : Execution → List Execution → List Execution
set_execution x [] = x ∷ []
set_execution x (y ∷ ys) =
    let rest = set_execution x ys in if y.id === x.id then x ∷ ys else y ∷ rest

module _ {J : Type 0} where
  abbrev pub node_id : BundleNode J → String
  node_id n = n.node.id

  abbrev pub execution_of : BundleNode J → Execution
  execution_of n = record {
    id = n.node.id;
    status = n.node.data_.status;
    would_run = n.node.data_.would_run;
    flaky = n.flaky;
    retry_index = n.retry_index;
    attempt_index = n.attempt_index;
    retry_count = n.retry_count;
    shard_index = n.shard_index;
    shard_total = n.shard_total;
    shard_count = n.shard_count;
  }

  -- counts[node_id]
  unfoldable pub times : String → List (BundleNode J) → ℕ
  times id [] = 0
  times id (n ∷ ns) = let rest = times id ns in if node_id n === id then suc rest else rest

  abbrev pub is_unique : List (BundleNode J) → String → Bool
  is_unique nodes id = not (is_blank_text id) && times id nodes == 1

  -- tests and executions: the unique nodes of a kind
  unfoldable pub unique_of_kind : String → List (BundleNode J) → List (BundleNode J)
  unique_of_kind kind nodes =
      select (λ n. is_unique nodes (node_id n) && n.node.kind === kind) nodes

  abbrev pub tests_of : Bundle J → List (BundleNode J)
  tests_of bundle = unique_of_kind "test" bundle.nodes

  abbrev pub executions_of : Bundle J → List (BundleNode J)
  executions_of bundle = unique_of_kind "execution_evidence" bundle.nodes

  abbrev pub is_link : List (BundleNode J) → String → Edge → Bool
  is_link executions test_id e =
      e.kind === "evidenced_by"
      && (e.source === test_id && member e.target (map node_id executions))

  -- links[test_id]
  unfoldable pub links_of : List (BundleNode J) → String → List Edge → List String
  links_of executions test_id [] = []
  links_of executions test_id (e ∷ es) =
      let rest = links_of executions test_id es in
      if is_link executions test_id e then add e.target rest else rest

  -- executions[node_id]; one node, since the ids are unique
  unfoldable pub named : String → List (BundleNode J) → List (BundleNode J)
  named id nodes = select (λ n. node_id n === id) nodes

  unfoldable pub all_named : List String → List (BundleNode J) → List (BundleNode J)
  all_named [] nodes = []
  all_named (id ∷ ids) nodes = named id nodes ++ all_named ids nodes

  -- {**base, **other}: the keys of `other` replace those of `base`
  abbrev pub set_key : Codes × J → List (Codes × J) → List (Codes × J)
  set_key e [] = e ∷ []
  set_key e (x ∷ xs) = if same_codes x.0 e.0 then (x.0, e.1) ∷ xs else x ∷ set_key e xs

  unfoldable pub merge_keys : List (Codes × J) → List (Codes × J) → List (Codes × J)
  merge_keys base [] = base
  merge_keys base (e ∷ es) = merge_keys (set_key e base) es

  abbrev pub merged : List (Codes × J) → Value J → List (Codes × J)
  merged base (mapping m) = sort_keys (merge_keys base m)
  merged base Value.no_value = sort_keys base
  merged base Value.no_mapping = sort_keys base

  -- _merge_matrix for no execution and for one
  unfoldable pub merge_matrix : List (Codes × J) → Option (BundleNode J) → List (Codes × J)
  merge_matrix base none = sort_keys base
  merge_matrix base (some x) = merged base (or_value x.fields.matrix x.fields.matrix_values)

  abbrev pub or_none : List (BundleNode J) → List (Option (BundleNode J))
  or_none [] = none ∷ []
  or_none (x ∷ xs) = map some (x ∷ xs)

  abbrev pub set_linked : Option (BundleNode J) → List Execution → List Execution
  set_linked none xs = xs
  set_linked (some x) xs = set_execution (execution_of x) xs

  abbrev pub has_key : Codes → Codes → Group J → Bool
  has_key canonical matrix_group g =
      same_codes g.canonical canonical && same_codes g.matrix_group matrix_group

  -- One round of the inner loop, on groups.values(): setdefault, and the two changes after it.
  unfoldable pub put_in_group :
      Group J → String → Option (BundleNode J) → List (Group J) → List (Group J)
  put_in_group empty test_id x [] =
      record empty { test_ids = add test_id []; executions = set_linked x [] } ∷ []
  put_in_group empty test_id x (g ∷ gs) =
      let rest = put_in_group empty test_id x gs in
      if has_key empty.canonical empty.matrix_group g
      then record g { test_ids = add test_id g.test_ids; executions = set_linked x g.executions }
        ∷ gs
      else g ∷ rest

  abbrev pub precedes_group : Group J → Group J → Bool
  precedes_group g h =
      before g.canonical h.canonical
      || (same_codes g.canonical h.canonical && before g.matrix_group h.matrix_group)

  unfoldable pub components_of_test : BundleNode J → Components J
  components_of_test test =
      identity_components (get_or test.fields.canonical_test_id []) test.fields

module _ {J : Type 0} (texts : Texts) where
  -- sorted(tests.items()), by the ids
  abbrev pub sort_tests : List (BundleNode J) → List (BundleNode J)
  sort_tests = sort_by (λ (t u : BundleNode J). texts.precedes (node_id t) (node_id u))

  unfoldable pub linked :
      List (BundleNode J) → List Edge → BundleNode J → List (Option (BundleNode J))
  linked executions edges test = or_none (
      all_named (sort_texts texts.lower texts.precedes (links_of executions (node_id test) edges))
        executions)

module _ {J : Type 0} (digests : Digests J) where
  -- _matrix_group_id
  abbrev pub matrix_group_id : List (Codes × J) → Codes
  matrix_group_id [] = codes "matrix:default"
  matrix_group_id (e ∷ m) = codes "matrix:" ++ take 12 (digests.of_mapping (e ∷ m))

  unfoldable pub canonical_of : BundleNode J → Components J → Codes
  canonical_of test c =
      if not (is_empty c.framework) && (not (is_empty c.file) && not (is_empty c.name))
      then normalized_canonical_test_id digests c
      else codes "test-node:" ++ codes (node_id test)

  -- The group that setdefault adds for a test and an execution
  unfoldable pub new_group : BundleNode J → Option (BundleNode J) → Group J
  new_group test x =
      let c = components_of_test test in
      let matrix = merge_matrix c.matrix x in
      record {
        canonical = canonical_of test c;
        matrix = matrix;
        matrix_group = matrix_group_id matrix;
        test_ids = [];
        executions = [];
      }

  unfoldable pub put_all :
      BundleNode J → List (Option (BundleNode J)) → List (Group J) → List (Group J)
  put_all test [] groups = groups
  put_all test (x ∷ xs) groups =
      put_all test xs (put_in_group (new_group test x) (node_id test) x groups)

module _ {J : Type 0} (texts : Texts) (digests : Digests J) where
  unfoldable pub put_tests :
      List (BundleNode J) → List Edge → List (BundleNode J) → List (Group J) → List (Group J)
  put_tests executions edges [] groups = groups
  put_tests executions edges (t ∷ ts) groups =
      put_tests executions edges ts (put_all digests t (linked texts executions edges t) groups)

  unfoldable pub execution_groups : Bundle J → List (Group J)
  execution_groups bundle =
      sort_by precedes_group
        (put_tests (executions_of bundle) bundle.edges (sort_tests texts (tests_of bundle)) [])

  -- The aggregates of _build_retry_aggregation
  unfoldable pub build_aggregates : Bundle J → List Aggregate
  build_aggregates bundle = map (λ g. aggregate_group texts g.executions) (execution_groups bundle)
