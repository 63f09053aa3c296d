-- ===== src/EvidenceGraph/Lineage.antt =====
-- Where the loop over the edges puts its links, and what an executed set of risk tests means
-- (analyze_graph in p1a_graph.py).
use harness_auto_test_eviden.Prelude.{
  ℕ, suc, String, Bool, true, not, List, [], ◌∷◌, ◌≡◌, refl, sym, ap, ◌∙◌, subst, ◌⊎◌, inl, inr,
  is_empty, Occurs, and_true,
}
use harness_auto_test_eviden.EvidenceGraph.{
  Node, Edge, Link, unresolved, mismatch, unsourced, risk_test, placement, executed_test,
  changed_risk, other, Links, link_of, add_link, scan, before_edges, analyze_graph,
}
use harness_auto_test_eviden.EvidenceGraph.TextSets.{
  add-Occurs, add_keeps, Occurs-add, sort_texts_empty, left_out,
}

module _ (lower : String → String) (precedes : String → String → Bool) where
  module _ (nodes : List Node) (run_id : String) where
    -- Some edge has the link.
    abbrev pub IsLinked : Link → List Edge → Type 0
    IsLinked k [] = ⊥
    IsLinked k (e ∷ es) = (link_of lower precedes nodes run_id e ≡ k) ⊎ IsLinked k es

    step_keeps_risk :
        (i : ℕ) (e : Edge) (k : Link) (l : Links) (t : String)
        → Occurs t l.risk_tests
        → Occurs t (add_link lower precedes nodes run_id i e k l).risk_tests
    unfolding add_link
    step_keeps_risk i e (risk_test u) l t o = add_keeps u t l.risk_tests o
    step_keeps_risk i e (unresolved fields) l t o = o
    step_keeps_risk i e mismatch l t o = o
    step_keeps_risk i e unsourced l t o = o
    step_keeps_risk i e (placement u) l t o = o
    step_keeps_risk i e (executed_test u) l t o = o
    step_keeps_risk i e changed_risk l t o = o
    step_keeps_risk i e other l t o = o

    step_keeps_placement :
        (i : ℕ) (e : Edge) (k : Link) (l : Links) (t : String)
        → Occurs t l.placements
        → Occurs t (add_link lower precedes nodes run_id i e k l).placements
    unfolding add_link
    step_keeps_placement i e (placement u) l t o = add_keeps u t l.placements o
    step_keeps_placement i e (risk_test u) l t o = o
    step_keeps_placement i e (unresolved fields) l t o = o
    step_keeps_placement i e mismatch l t o = o
    step_keeps_placement i e unsourced l t o = o
    step_keeps_placement i e (executed_test u) l t o = o
    step_keeps_placement i e changed_risk l t o = o
    step_keeps_placement i e other l t o = o

    step_executed :
        (i : ℕ) (e : Edge) (k : Link) (l : Links) (t : String)
        → Occurs t (add_link lower precedes nodes run_id i e k l).executed_tests
        → Occurs t l.executed_tests ⊎ (k ≡ executed_test t)
    unfolding add_link
    step_executed i e (executed_test u) l t o = named (Occurs-add u t l.executed_tests o)
      where
        named :
            Occurs t l.executed_tests ⊎ (t ≡ u)
            → Occurs t l.executed_tests ⊎ (executed_test u ≡ executed_test t)
        named (inl o) = inl o
        named (inr q) = inr (ap executed_test (sym q))
    step_executed i e (placement u) l t o = inl o
    step_executed i e (risk_test u) l t o = inl o
    step_executed i e (unresolved fields) l t o = inl o
    step_executed i e mismatch l t o = inl o
    step_executed i e unsourced l t o = inl o
    step_executed i e changed_risk l t o = inl o
    step_executed i e other l t o = inl o

    added_risk :
        (i : ℕ) (e : Edge) (l : Links) (t : String)
        → Occurs t (add_link lower precedes nodes run_id i e (risk_test t) l).risk_tests
    unfolding add_link
    added_risk i e l t = add-Occurs t l.risk_tests

    scan_risk :
        (i : ℕ) (es : List Edge) (l : Links) (t : String)
        → Occurs t l.risk_tests ⊎ IsLinked (risk_test t) es
        → Occurs t (scan lower precedes nodes run_id i es l).risk_tests
    unfolding scan
    scan_risk i [] l t (inl o) = o
    scan_risk i [] l t (inr o) = absurd o
    scan_risk i (e ∷ es) l t h = scan_risk (suc i) es _ t (stepped h)
      where
        new :
            (k : Link)
            → k ≡ risk_test t
            → Occurs t (add_link lower precedes nodes run_id i e k l).risk_tests
        new k q =
            subst (λ x. Occurs t (add_link lower precedes nodes run_id i e x l).risk_tests) (sym q)
              (added_risk i e l t)

        stepped :
            Occurs t l.risk_tests ⊎ IsLinked (risk_test t) (e ∷ es)
            → Occurs t
                (add_link lower precedes nodes run_id i e
                  (link_of lower precedes nodes run_id e)
                  l).risk_tests
              ⊎ IsLinked (risk_test t) es
        stepped (inl o) = inl (step_keeps_risk i e _ l t o)
        stepped (inr (inl q)) = inl (new _ q)
        stepped (inr (inr o)) = inr o

    added_placement :
        (i : ℕ) (e : Edge) (l : Links) (t : String)
        → Occurs t (add_link lower precedes nodes run_id i e (placement t) l).placements
    unfolding add_link
    added_placement i e l t = add-Occurs t l.placements

    scan_placement :
        (i : ℕ) (es : List Edge) (l : Links) (t : String)
        → Occurs t l.placements ⊎ IsLinked (placement t) es
        → Occurs t (scan lower precedes nodes run_id i es l).placements
    unfolding scan
    scan_placement i [] l t (inl o) = o
    scan_placement i [] l t (inr o) = absurd o
    scan_placement i (e ∷ es) l t h = scan_placement (suc i) es _ t (stepped h)
      where
        new :
            (k : Link)
            → k ≡ placement t
            → Occurs t (add_link lower precedes nodes run_id i e k l).placements
        new k q =
            subst (λ x. Occurs t (add_link lower precedes nodes run_id i e x l).placements) (sym q)
              (added_placement i e l t)

        stepped :
            Occurs t l.placements ⊎ IsLinked (placement t) (e ∷ es)
            → Occurs t
                (add_link lower precedes nodes run_id i e
                  (link_of lower precedes nodes run_id e)
                  l).placements
              ⊎ IsLinked (placement t) es
        stepped (inl o) = inl (step_keeps_placement i e _ l t o)
        stepped (inr (inl q)) = inl (new _ q)
        stepped (inr (inr o)) = inr o

    scan_executed :
        (i : ℕ) (es : List Edge) (l : Links) (t : String)
        → Occurs t (scan lower precedes nodes run_id i es l).executed_tests
        → Occurs t l.executed_tests ⊎ IsLinked (executed_test t) es
    unfolding scan
    scan_executed i [] l t o = inl o
    scan_executed i (e ∷ es) l t o = came (scan_executed (suc i) es _ t o)
      where
        first :
            (k : Link)
            → link_of lower precedes nodes run_id e ≡ k
            → Occurs t l.executed_tests ⊎ (k ≡ executed_test t)
            → Occurs t l.executed_tests ⊎ IsLinked (executed_test t) (e ∷ es)
        first k q (inl o) = inl o
        first k q (inr r) = inr (inl (q ∙ r))

        came :
            Occurs t
                (add_link lower precedes nodes run_id i e
                  (link_of lower precedes nodes run_id e)
                  l).executed_tests
              ⊎ IsLinked (executed_test t) es
            → Occurs t l.executed_tests ⊎ IsLinked (executed_test t) (e ∷ es)
        came (inl o) = first _ refl (step_executed i e _ l t o)
        came (inr o) = inr (inr o)

    -- Where all risk tests count as executed, each of them is the source of an edge to an execution
    -- with a result; and a risk that only has a placement for a test stands against it.
    pub executed-IsLinked :
        (edges : List Edge) (t : String)
        → (analyze_graph lower precedes nodes run_id edges).all_risk_tests_executed ≡ true
        → IsLinked (risk_test t) edges ⊎ IsLinked (placement t) edges
        → IsLinked (executed_test t) edges
    unfolding analyze_graph
    executed-IsLinked edges t h k =
        let l =
          scan lower precedes nodes run_id 0 edges (before_edges lower precedes nodes run_id) in
        let (_, none_left) = and_true (not (is_empty l.risk_tests)) _ h in
        let empty = sort_texts_empty lower precedes _ none_left in
        from_edges (
          scan_executed 0 edges _ t
            (left_out l.risk_tests l.executed_tests l.placements t empty (found k)))
      where
        from_edges : ⊥ ⊎ IsLinked (executed_test t) edges → IsLinked (executed_test t) edges
        from_edges (inl o) = absurd o
        from_edges (inr o) = o

        found :
            IsLinked (risk_test t) edges ⊎ IsLinked (placement t) edges
            → Occurs t
                (scan lower precedes nodes run_id 0 edges
                  (before_edges lower precedes nodes run_id)).risk_tests
              ⊎ Occurs t
                  (scan lower precedes nodes run_id 0 edges
                    (before_edges lower precedes nodes run_id)).placements
        found (inl o) = inl (scan_risk 0 edges _ t (inr o))
        found (inr o) = inr (scan_placement 0 edges _ t (inr o))
