-- ===== src/Retries/Grouping/Unique.antt =====
-- An id that is unique names one node.
use harness_auto_test_eviden.Prelude.{
  ◌≤◌, String, Bool, not, ◌&&◌, List, [], ◌∷◌, ◌≡◌, refl, sym, ap, ◌∙◌, inl, inr, ==_iff, ◌===◌,
  Bool-cases, Occurs, eq_iff, and_true, arith, Occurs-select,
}
use harness_auto_test_eviden.EvidenceGraph.{is_blank_text}
use harness_auto_test_eviden.Retries.Grouping.{
  BundleNode, node_id, times, is_unique, unique_of_kind,
}

module _ {J : Type 0} where
  times_pos :
      (id : String) (n : BundleNode J) (ns : List (BundleNode J))
      → Occurs n ns
      → node_id n ≡ id
      → 1 ≤ times id ns
  unfolding times
  times_pos id n [] o q = absurd o
  times_pos id n (x ∷ xs) (inl p) q =
      rw ((eq_iff (node_id x) id).1 (ap node_id (sym p) ∙ q)) (omega arith)
  times_pos id n (x ∷ xs) (inr o) q = ground (arith, times_pos id n xs o q)

  -- A node whose id stands once is the only one with this id.
  times_once :
      (id : String) (a b : BundleNode J) (ns : List (BundleNode J))
      → times id ns ≡ 1
      → Occurs a ns
      → Occurs b ns
      → node_id a ≡ id
      → node_id b ≡ id
      → a ≡ b
  unfolding times
  times_once id a b [] t o o' p q = absurd o
  times_once id a b (n ∷ ns) t (inl e) (inl e') p q = e ∙ sym e'
  times_once id a b (n ∷ ns) t (inl e) (inr o') p q =
      absurd
        (ground (arith, (eq_iff (node_id n) id).1 (ap node_id (sym e) ∙ p), times_pos id b ns o' q))
  times_once id a b (n ∷ ns) t (inr o) (inl e') p q =
      absurd
        (ground (arith, (eq_iff (node_id n) id).1 (ap node_id (sym e') ∙ q), times_pos id a ns o p))
  times_once id a b (n ∷ ns) t (inr o) (inr o') p q = elim (Bool-cases (node_id n === id)) [
    | inl h ↦ absurd (ground (arith, h, times_pos id a ns o p))
    | inr h ↦ times_once id a b ns (ground (arith, h)) o o' p q
  ]

  -- Two unique nodes of one kind with one id are the same.
  pub unique_same :
      (kind : String) (nodes : List (BundleNode J)) (a b : BundleNode J)
      → Occurs a (unique_of_kind kind nodes)
      → Occurs b (unique_of_kind kind nodes)
      → node_id a ≡ node_id b
      → a ≡ b
  unfolding unique_of_kind
  unique_same kind nodes a b o o' q =
      let wanted : BundleNode J → Bool = λ n. is_unique nodes (node_id n) && n.node.kind === kind in
      let (here, checked) = Occurs-select wanted a nodes o in
      let (there, _) = Occurs-select wanted b nodes o' in
      let (unique, _) = and_true (is_unique nodes (node_id a)) _ checked in
      let (_, once) = and_true (not (is_blank_text (node_id a))) _ unique in
      times_once (node_id a) a b nodes ((==_iff (times (node_id a) nodes) 1).0 once) here there refl
        (sym q)
