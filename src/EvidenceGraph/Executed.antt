-- ===== src/EvidenceGraph/Executed.antt =====
-- What it means for the required tests of a graph to be executed (analyze_graph in p1a_graph.py).
use harness_auto_test_eviden.Prelude.{
  String, Bool, true, false, not, ◌&&◌, ◌||◌, List, [], ◌∷◌, ◌++◌, ◌≡◌, refl, sym, ap, ◌∙◌, ◌⊎◌,
  inl, inr, ◌===◌, if◌then◌else◌, is_empty, is_some, Occurs,
}
use harness_auto_test_eviden.EvidenceGraph.{
  Node, Edge, Link, unresolved, mismatch, unsourced, risk_test, placement, executed_test,
  changed_risk, other, has_kind, valid_source_refs, node_kind, is_executed, external_export,
  missing_ends, lineage, link_of, analyze_graph,
}
use harness_auto_test_eviden.EvidenceGraph.Integrity.{IsSoundEdge}
use harness_auto_test_eviden.EvidenceGraph.Lineage.{IsLinked, executed-IsLinked}

module _ (lower : String → String) (precedes : String → String → Bool) (nodes : List Node) where
  -- The edge asks for a test, or for a place for one, and has its sources.
  pub record IsRequirement (e : Edge) : Type 0 where
    pub requires : (e.kind === "requires_test") ≡ true
    pub sourced : valid_source_refs e.source_refs ≡ true
    pub target :
        (has_kind "test" (node_kind lower precedes nodes e.target) ≡ true)
        ⊎ (has_kind "test_placement" (node_kind lower precedes nodes e.target) ≡ true)

  -- The edge leads from a test to an execution with a result, and has its sources.
  pub record IsEvidence (t : String) (e : Edge) : Type 0 where
    pub evidences : (e.kind === "evidenced_by") ≡ true
    pub sourced : valid_source_refs e.source_refs ≡ true
    pub of_test : e.source ≡ t
    pub executed : is_executed lower precedes nodes e.target ≡ true

  module _ (run_id : String) where
    sound_ends :
        (e : Edge)
        → IsSoundEdge lower precedes nodes run_id e
        → is_empty (missing_ends lower precedes nodes run_id e) ≡ true
    sound_ends e s = by_target s.target
      where
        ends : Bool → Bool → Bool → Bool
        ends a b x =
            is_empty {A = String}
              ((if a then [] else "from" ∷ []) ++ (if b || x then [] else "to" ∷ []))

        first : (a b x : Bool) → a ≡ true → b ≡ true → ends a b x ≡ true
        first true true x p q = refl
        first false b x p q = absurd (cc (p))
        first true false x p q = absurd (cc (q))

        second : (a b x : Bool) → a ≡ true → x ≡ true → ends a b x ≡ true
        second true true true p q = refl
        second true false true p q = refl
        second false b x p q = absurd (cc (p))
        second true b false p q = absurd (cc (q))

        by_target :
            (is_some (node_kind lower precedes nodes e.target) ≡ true)
              ⊎ (external_export lower precedes nodes run_id e ≡ true)
            → is_empty (missing_ends lower precedes nodes run_id e) ≡ true
        by_target (inl q) = first _ _ _ s.source q
        by_target (inr q) = second _ _ _ s.source q

    sound_decision :
        (e : Edge)
        → IsSoundEdge lower precedes nodes run_id e
        → (e.kind === "decides" && not (external_export lower precedes nodes run_id e)) ≡ false
    sound_decision e s = by_decision s.decision
      where
        by_decision :
            ((e.kind === "decides") ≡ false)
              ⊎ (external_export lower precedes nodes run_id e ≡ true)
            → (e.kind === "decides" && not (external_export lower precedes nodes run_id e)) ≡ false
        by_decision (inl q) = rw q refl
        by_decision (inr q) = rw q (no_and (e.kind === "decides"))
          where
            no_and : (b : Bool) → (b && false) ≡ false
            no_and true = refl
            no_and false = refl

    requirement_link :
        (e : Edge)
        → IsSoundEdge lower precedes nodes run_id e
        → IsRequirement e
        → (link_of lower precedes nodes run_id e ≡ risk_test e.target)
          ⊎ (link_of lower precedes nodes run_id e ≡ placement e.target)
    unfolding link_of lineage
    requirement_link e s r =
        rw (sound_ends e s, s.kinds, sound_decision e s, r.sourced, r.requires)
          (by_target _ _ r.target)
      where
        tail : Bool → Bool → Link
        tail a b =
            if a
            then risk_test e.target
            else if b
            then placement e.target
            else if e.kind === "evidenced_by" && is_executed lower precedes nodes e.target
            then executed_test e.source
            else if e.kind === "touches"
            then changed_risk
            else other

        by_target :
            (a b : Bool)
            → (a ≡ true) ⊎ (b ≡ true)
            → (tail a b ≡ risk_test e.target) ⊎ (tail a b ≡ placement e.target)
        by_target true b q = inl refl
        by_target false true q = inr refl
        by_target false false (inl q) = absurd (cc (q))
        by_target false false (inr q) = absurd (cc (q))

    executed_link :
        (e : Edge) (t : String)
        → link_of lower precedes nodes run_id e ≡ executed_test t
        → IsEvidence t e
    unfolding link_of lineage
    executed_link e t h =
        chain (is_empty (missing_ends lower precedes nodes run_id e)) _
          (valid_source_refs e.source_refs) _ _ (e.kind === "evidenced_by")
          (is_executed lower precedes nodes e.target) (e.kind === "touches") refl refl refl h
      where
        chain :
            (a w v r p x y c : Bool)
            → valid_source_refs e.source_refs ≡ v
            → (e.kind === "evidenced_by") ≡ x
            → is_executed lower precedes nodes e.target ≡ y
            → (if not a
                then unresolved (missing_ends lower precedes nodes run_id e)
                else if w
                then mismatch
                else if not v
                then unsourced
                else if r
                then risk_test e.target
                else if p
                then placement e.target
                else if x && y
                then executed_test e.source
                else if c
                then changed_risk
                else other)
              ≡ executed_test t
            → IsEvidence t e
        chain true false true false false true true c i j k h = record {
          evidences = j;
          sourced = i;
          of_test = cc (h);
          executed = k;
        }
        chain false w v r p x y c i j k h = absurd (cc (h))
        chain true true v r p x y c i j k h = absurd (cc (h))
        chain true false false r p x y c i j k h = absurd (cc (h))
        chain true false true true p x y c i j k h = absurd (cc (h))
        chain true false true false true x y c i j k h = absurd (cc (h))
        chain true false true false false true false true i j k h = absurd (cc (h))
        chain true false true false false true false false i j k h = absurd (cc (h))
        chain true false true false false false y true i j k h = absurd (cc (h))
        chain true false true false false false y false i j k h = absurd (cc (h))

    Occurs-IsLinked :
        (e : Edge) (es : List Edge) (k : Link)
        → Occurs e es
        → link_of lower precedes nodes run_id e ≡ k
        → IsLinked lower precedes nodes run_id k es
    Occurs-IsLinked e [] k o h = absurd o
    Occurs-IsLinked e (f ∷ es) k (inl q) h =
        inl (ap (link_of lower precedes nodes run_id) (sym q) ∙ h)
    Occurs-IsLinked e (f ∷ es) k (inr o) h = inr (Occurs-IsLinked e es k o h)

    linked_edge :
        (es : List Edge) (t : String)
        → IsLinked lower precedes nodes run_id (executed_test t) es
        → (e : Edge) × Occurs e es × IsEvidence t e
    linked_edge [] t l = absurd l
    linked_edge (e ∷ es) t (inl q) = (e, inl refl, executed_link e t q)
    linked_edge (e ∷ es) t (inr l) = let (f, o, v) = linked_edge es t l in (f, inr o, v)

    -- Where all risk tests of a graph count as executed, each sound edge that requires a test, or only
    -- has a place for one, has an edge that leads from this test to an execution with a result.
    pub required-IsEvidence :
        (edges : List Edge) (e : Edge)
        → (analyze_graph lower precedes nodes run_id edges).all_risk_tests_executed ≡ true
        → Occurs e edges
        → IsSoundEdge lower precedes nodes run_id e
        → IsRequirement e
        → (f : Edge) × Occurs f edges × IsEvidence e.target f
    required-IsEvidence edges e h o s r = linked_edge edges e.target (
        executed-IsLinked lower precedes nodes run_id edges e.target h
          (linked (requirement_link e s r)))
      where
        linked :
            (link_of lower precedes nodes run_id e ≡ risk_test e.target)
              ⊎ (link_of lower precedes nodes run_id e ≡ placement e.target)
            → IsLinked lower precedes nodes run_id (risk_test e.target) edges
              ⊎ IsLinked lower precedes nodes run_id (placement e.target) edges
        linked (inl q) = inl (Occurs-IsLinked e edges _ o q)
        linked (inr q) = inr (Occurs-IsLinked e edges _ o q)
