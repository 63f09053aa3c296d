-- ===== src/Retries/Grouping/Kept.antt =====
-- No test and no execution that is linked to one is lost in the groups.
use harness_auto_test_eviden.Prelude.{
  String, true, Option, none, some, List, [], ◌∷◌, ◌≡◌, refl, sym, ap, subst, inl, inr, ◌===◌,
  Occurs, sort_by-Occurs,
}
use harness_auto_test_eviden.EvidenceGraph.{Edge}
use harness_auto_test_eviden.Identity.{Digests}
use harness_auto_test_eviden.Retries.{Texts, Execution}
use harness_auto_test_eviden.Retries.Grouping.{
  BundleNode, Bundle, Group, node_id, execution_of, tests_of, executions_of, put_in_group,
  precedes_group, or_none, linked, sort_tests, new_group, put_all, put_tests, execution_groups,
}
use harness_auto_test_eviden.Retries.Grouping.Put.{
  Holds, Agrees, as_execution, put_keeps, put-Holds,
}
use harness_auto_test_eviden.Retries.Grouping.Unique.{unique_same}
use harness_auto_test_eviden.Retries.Grouping.Links.{linked-Occurs, Occurs-linked}

module _ {J : Type 0} (texts : Texts) (digests : Digests J) where
  put_all_keeps :
      (t : BundleNode J) (k : String) (y : Option Execution) (xs : List (Option (BundleNode J)))
      (gs : List (Group J))
      → ((x : Option (BundleNode J)) → Occurs x xs → Agrees y x)
      → Holds k y gs
      → Holds k y (put_all digests t xs gs)
  unfolding put_all
  put_all_keeps t k y [] gs a h = h
  put_all_keeps t k y (x ∷ xs) gs a h =
      put_all_keeps t k y xs _ (λ x' o. a x' (inr o))
        (put_keeps _ (node_id t) k y x gs (a x (inl refl)) h)

  put_all-Holds :
      (t : BundleNode J) (x : Option (BundleNode J)) (xs : List (Option (BundleNode J)))
      (gs : List (Group J))
      → ((x' : Option (BundleNode J)) → Occurs x' xs → Agrees (as_execution x) x')
      → Occurs x xs
      → Holds (node_id t) (as_execution x) (put_all digests t xs gs)
  unfolding put_all
  put_all-Holds t x [] gs a o = absurd o
  put_all-Holds t x (x' ∷ xs) gs a (inl q) =
      put_all_keeps t (node_id t) (as_execution x) xs _ (λ v o. a v (inr o))
        (subst
          (λ v.
            Holds (node_id t) (as_execution v)
              (put_in_group (new_group digests t x') (node_id t) x' gs))
          (sym q) (put-Holds _ (node_id t) x' gs))
  put_all-Holds t x (x' ∷ xs) gs a (inr o) = put_all-Holds t x xs _ (λ v o. a v (inr o)) o

  module _ (executions : List (BundleNode J)) (edges : List Edge) where
    put_tests_keeps :
        (ts : List (BundleNode J)) (k : String) (y : Option Execution) (gs : List (Group J))
        → ((t : BundleNode J) (x : Option (BundleNode J))
            → Occurs x (linked texts executions edges t)
            → Agrees y x)
        → Holds k y gs
        → Holds k y (put_tests texts digests executions edges ts gs)
    unfolding put_tests
    put_tests_keeps [] k y gs a h = h
    put_tests_keeps (t ∷ ts) k y gs a h =
        put_tests_keeps ts k y _ a (put_all_keeps t k y _ gs (a t) h)

    put_tests-Holds :
        (ts : List (BundleNode J)) (t : BundleNode J) (x : Option (BundleNode J))
        (gs : List (Group J))
        → ((t' : BundleNode J) (x' : Option (BundleNode J))
            → Occurs x' (linked texts executions edges t')
            → Agrees (as_execution x) x')
        → Occurs t ts
        → Occurs x (linked texts executions edges t)
        → Holds (node_id t) (as_execution x) (put_tests texts digests executions edges ts gs)
    unfolding put_tests
    put_tests-Holds [] t x gs a o h = absurd o
    put_tests-Holds (u ∷ us) t x gs a (inl q) h =
        put_tests_keeps us (node_id t) (as_execution x) _ a (
          subst
            (λ v.
              Holds (node_id t) (as_execution x)
                (put_all digests v (linked texts executions edges v) gs))
            q (put_all-Holds t x _ gs (a t) h))
    put_tests-Holds (u ∷ us) t x gs a (inr o) h = put_tests-Holds us t x _ a o h

  module _ (bundle : Bundle J) where
    agreement :
        (x : BundleNode J)
        → Occurs x (executions_of bundle)
        → (t : BundleNode J) (x' : Option (BundleNode J))
        → Occurs x' (linked texts (executions_of bundle) bundle.edges t)
        → Agrees (some (execution_of x)) x'
    agreement x here t none o = tt
    agreement x here t (some x') o =
        let (there, _) = Occurs-linked texts (executions_of bundle) bundle.edges t x' o in
        λ q. ap execution_of (unique_same "execution_evidence" bundle.nodes x' x there here q)

    sorted_Holds :
        (k : String) (y : Option Execution)
        → Holds k y (
            put_tests texts digests
              (executions_of bundle)
              bundle.edges
              (sort_tests texts (tests_of bundle))
              [])
        → Holds k y (execution_groups texts digests bundle)
    unfolding execution_groups
    sorted_Holds k y (g, o, named, held) = (g, sort_by-Occurs precedes_group g _ o, named, held)

    in_order :
        (t : BundleNode J)
        → Occurs t (tests_of bundle)
        → Occurs t (sort_tests texts (tests_of bundle))
    in_order t o = sort_by-Occurs _ t (tests_of bundle) o

    -- For each edge that leads from a test of its own id to an execution of its own id there is a
    -- group that names the test and holds the execution.
    pub linked-IsGrouped :
        (t x : BundleNode J) (e : Edge)
        → Occurs t (tests_of bundle)
        → Occurs x (executions_of bundle)
        → Occurs e bundle.edges
        → (e.kind === "evidenced_by") ≡ true
        → e.source ≡ node_id t
        → e.target ≡ node_id x
        → Holds (node_id t) (some (execution_of x)) (execution_groups texts digests bundle)
    linked-IsGrouped t x e test here o kind source target =
        sorted_Holds (node_id t) (some (execution_of x)) (
          put_tests-Holds (executions_of bundle) bundle.edges (sort_tests texts (tests_of bundle)) t
            (some x) [] (agreement x here) (in_order t test)
            (linked-Occurs texts (executions_of bundle) bundle.edges t x e here o kind source
              target))

    some_linked :
        (t : BundleNode J)
        → (x : Option (BundleNode J)) × Occurs x
            (linked texts (executions_of bundle) bundle.edges t)
    unfolding linked
    some_linked t = first _
      where
        first : (xs : List (BundleNode J)) → (x : Option (BundleNode J)) × Occurs x (or_none xs)
        first [] = (none, inl refl)
        first (x ∷ xs) = (some x, inl refl)

    -- A test of its own id is named by a group, with or without executions.
    pub test-IsGrouped :
        (t : BundleNode J)
        → Occurs t (tests_of bundle)
        → Holds (node_id t) none (execution_groups texts digests bundle)
    test-IsGrouped t test =
        let (x, o) = some_linked t in sorted_Holds (node_id t) none (by_node x o)
      where
        groups : List (Group J)
        groups =
            put_tests texts digests (executions_of bundle) bundle.edges
              (sort_tests texts (tests_of bundle)) []

        named : (y : Option Execution) → Holds (node_id t) y groups → Holds (node_id t) none groups
        named y (g, o, here, held) = (g, o, here, tt)

        by_node :
            (x : Option (BundleNode J))
            → Occurs x (linked texts (executions_of bundle) bundle.edges t)
            → Holds (node_id t) none groups
        by_node none o =
            put_tests-Holds (executions_of bundle) bundle.edges _ t none [] (λ t' x' o'. tt)
              (in_order t test) o
        by_node (some x) o = named (some (execution_of x)) (
            put_tests-Holds (executions_of bundle) bundle.edges _ t (some x) []
              (agreement x (Occurs-linked texts (executions_of bundle) bundle.edges t x o).0)
              (in_order t test) o)
