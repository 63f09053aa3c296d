-- ===== src/Retries/Grouping/Put.antt =====
-- What a round of the loop over the tests and their executions adds to the groups, and what it
-- keeps of them.
use harness_auto_test_eviden.Prelude.{
  subst, String, Bool, true, false, Option, none, some, List, [], ◌∷◌, ◌≡◌, refl, sym, ap, ◌∙◌, ◌⊎◌,
  inl, inr, ◌===◌, if◌then◌else◌, Bool-cases, Occurs, eq_iff,
}
use harness_auto_test_eviden.EvidenceGraph.{add}
use harness_auto_test_eviden.EvidenceGraph.TextSets.{add-Occurs, add_keeps}
use harness_auto_test_eviden.Retries.{Execution}
use harness_auto_test_eviden.Retries.Grouping.{
  BundleNode, Group, node_id, execution_of, set_execution, set_linked, has_key, put_in_group,
}

set_execution-Occurs : (x : Execution) (xs : List Execution) → Occurs x (set_execution x xs)
unfolding set_execution
set_execution-Occurs x [] = inl refl
set_execution-Occurs x (y ∷ ys) = elim (Bool-cases (y.id === x.id)) [
  | inl h ↦ rw h (inl refl)
  | inr h ↦ rw h (inr (set_execution-Occurs x ys))
]

set_execution_keeps :
    (x y : Execution) (xs : List Execution)
    → (x.id ≡ y.id → x ≡ y)
    → Occurs y xs
    → Occurs y (set_execution x xs)
unfolding set_execution
set_execution_keeps x y [] same o = absurd o
set_execution_keeps x y (z ∷ zs) same o = elim (Bool-cases (z.id === x.id)) [
  | inl h ↦ rw h (replaced ((eq_iff z.id x.id).0 h) o)
  | inr h ↦ rw h (later o (set_execution_keeps x y zs same))
]
  where
    replaced : z.id ≡ x.id → (y ≡ z) ⊎ Occurs y zs → (y ≡ x) ⊎ Occurs y zs
    replaced e (inl q) = inl (sym (same (sym e ∙ ap (λ (v : Execution). v.id) (sym q))))
    replaced e (inr o) = inr o

    later :
        (y ≡ z) ⊎ Occurs y zs
        → (Occurs y zs → Occurs y (set_execution x zs))
        → (y ≡ z) ⊎ Occurs y (set_execution x zs)
    later (inl q) f = inl q
    later (inr o) f = inr (f o)

pub Occurs-set_execution :
    (x y : Execution) (xs : List Execution) → Occurs y (set_execution x xs) → (y ≡ x) ⊎ Occurs y xs
unfolding set_execution
Occurs-set_execution x y [] o = o
Occurs-set_execution x y (z ∷ zs) o = by_id (z.id === x.id) o (Occurs-set_execution x y zs)
  where
    skipped : (y ≡ x) ⊎ Occurs y zs → (y ≡ x) ⊎ Occurs y (z ∷ zs)
    skipped (inl q) = inl q
    skipped (inr o) = inr (inr o)

    by_id :
        (b : Bool)
        → Occurs y (if b then x ∷ zs else z ∷ set_execution x zs)
        → (Occurs y (set_execution x zs) → (y ≡ x) ⊎ Occurs y zs)
        → (y ≡ x) ⊎ Occurs y (z ∷ zs)
    by_id true (inl q) f = inl q
    by_id true (inr o) f = inr (inr o)
    by_id false (inl q) f = inr (inl q)
    by_id false (inr o) f = skipped (f o)

abbrev pub HasExecution : Option Execution → List Execution → Type 0
HasExecution none xs = Unit {0}
HasExecution (some y) xs = Occurs y xs

module _ {J : Type 0} where
  -- A group names the test and, where one is given, holds the execution.
  abbrev pub Holds : String → Option Execution → List (Group J) → Type 0
  Holds k y gs = (g : Group J) × Occurs g gs × Occurs k g.test_ids × HasExecution y g.executions

  -- The node, if it is one and has the id of the execution, is this execution.
  abbrev pub Agrees : Option Execution → Option (BundleNode J) → Type 0
  Agrees none x = Unit {0}
  Agrees (some y) none = Unit {0}
  Agrees (some y) (some x) = node_id x ≡ y.id → execution_of x ≡ y

  abbrev pub as_execution : Option (BundleNode J) → Option Execution
  as_execution none = none
  as_execution (some x) = some (execution_of x)

  set_linked_keeps :
      (y : Option Execution) (x : Option (BundleNode J)) (xs : List Execution)
      → Agrees y x
      → HasExecution y xs
      → HasExecution y (set_linked x xs)
  set_linked_keeps none x xs a o = tt
  set_linked_keeps (some y) none xs a o = o
  set_linked_keeps (some y) (some x) xs a o = set_execution_keeps (execution_of x) y xs a o

  set_linked-HasExecution :
      (x : Option (BundleNode J)) (xs : List Execution)
      → HasExecution (as_execution x) (set_linked x xs)
  set_linked-HasExecution none xs = tt
  set_linked-HasExecution (some x) xs = set_execution-Occurs (execution_of x) xs

  pub put_keeps :
      (empty : Group J) (t k : String) (y : Option Execution) (x : Option (BundleNode J))
      (gs : List (Group J))
      → Agrees y x
      → Holds k y gs
      → Holds k y (put_in_group empty t x gs)
  unfolding put_in_group
  put_keeps empty t k y x [] a (g, o, named, held) = absurd o
  put_keeps empty t k y x (g ∷ gs) a h =
      elim (Bool-cases (has_key empty.canonical empty.matrix_group g)) [
        | inl e ↦ rw e (changed h)
        | inr e ↦ rw e (later h (put_keeps empty t k y x gs a))
      ]
    where
      changed :
          Holds k y (g ∷ gs)
          → Holds k y (
              record g { test_ids = add t g.test_ids; executions = set_linked x g.executions } ∷ gs)
      changed (g', inl q, named, held) = (
        _,
        inl refl,
        add_keeps t k g.test_ids (subst_test q named),
        set_linked_keeps y x g.executions a (subst_execution q held),
      )
        where
          subst_test : g' ≡ g → Occurs k g'.test_ids → Occurs k g.test_ids
          subst_test q o = subst (λ (v : Group J). Occurs k v.test_ids) q o

          subst_execution : g' ≡ g → HasExecution y g'.executions → HasExecution y g.executions
          subst_execution q o = subst (λ (v : Group J). HasExecution y v.executions) q o
      changed (g', inr o, named, held) = (g', inr o, named, held)

      later :
          Holds k y (g ∷ gs)
          → (Holds k y gs → Holds k y (put_in_group empty t x gs))
          → Holds k y (g ∷ put_in_group empty t x gs)
      later (g', inl q, named, held) f = (g', inl q, named, held)
      later (g', inr o, named, held) f =
          let (g'', o', named', held') = f (g', o, named, held) in (g'', inr o', named', held')

  pub put-Holds :
      (empty : Group J) (t : String) (x : Option (BundleNode J)) (gs : List (Group J))
      → Holds t (as_execution x) (put_in_group empty t x gs)
  unfolding put_in_group
  put-Holds empty t x [] = (_, inl refl, inl refl, set_linked-HasExecution x [])
  put-Holds empty t x (g ∷ gs) = elim (Bool-cases (has_key empty.canonical empty.matrix_group g)) [
    | inl e ↦ rw e (_, inl refl, add-Occurs t g.test_ids, set_linked-HasExecution x g.executions)
    | inr e ↦ rw e (let (g', o, named, held) = put-Holds empty t x gs in (g', inr o, named, held))
  ]
