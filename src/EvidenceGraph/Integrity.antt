-- ===== src/EvidenceGraph/Integrity.antt =====
-- What a graph without issues is (analyze_graph in p1a_graph.py).
use harness_auto_test_eviden.Prelude.{
  ℕ, suc, ◌≤◌, String, Bool, true, false, not, ◌&&◌, ◌||◌, List, [], ◌∷◌, ◌++◌, ◌≡◌, refl, sym, ap,
  ◌∙◌, subst, ◌⊎◌, inl, inr, ◌===◌, member, is_empty, is_some, if◌then◌else◌, ltb, Bool-cases,
  Occurs, All, Occurs→All, eq_iff, arith,
}
use harness_auto_test_eviden.EvidenceGraph.{
  Node, Edge, Link, unresolved, mismatch, unsourced, risk_test, placement, executed_test,
  changed_risk, other, Links, GraphIssue, missing_node_id, duplicate_node_id, is_blank_text,
  is_valid, wrong_kinds, sort_texts, count, node_ids, id_issues, node_kind, external_export,
  lineage, link_of, add_link, scan, before_edges, analyze_graph,
}
use harness_auto_test_eviden.EvidenceGraph.TextSets.{member-Occurs, sort_texts-Occurs}

is_empty-append :
    {A : Type 0} (xs ys : List A)
    → is_empty (xs ++ ys) ≡ true
    → (is_empty xs ≡ true) × (is_empty ys ≡ true)
is_empty-append [] ys h = (refl, h)
is_empty-append (x ∷ xs) ys h = absurd (cc (h))

module _ (lower : String → String) (precedes : String → String → Bool) (nodes : List Node) where
  -- A node whose id is usable and not that of another node
  pub record IsNamed (n : Node) : Type 0 where
    pub usable : is_blank_text n.id ≡ false
    pub unique : count lower precedes nodes nodes n.id ≡ 1

  count_positive :
      (id : String) (ns : List Node) (n : Node)
      → n.id ≡ id
      → Occurs n ns
      → 1 ≤ count lower precedes nodes ns id
  unfolding count
  count_positive id [] n q o = absurd o
  count_positive id (m ∷ ns) n q (inl r) =
      let t = (eq_iff m.id id).1 (ap (λ x. x.id) (sym r) ∙ q) in rw t (omega arith)
  count_positive id (m ∷ ns) n q (inr o) = elim (Bool-cases (m.id === id)) [
    | inl t ↦ rw t (omega arith)
    | inr f ↦ rw f (count_positive id ns n q o)
  ]

  node_ids-Occurs :
      (n : Node) (ns : List Node) → Occurs n ns → Occurs n.id (node_ids lower precedes nodes ns)
  unfolding node_ids
  node_ids-Occurs n [] o = absurd o
  node_ids-Occurs n (m ∷ ns) o =
      by_member (member m.id (node_ids lower precedes nodes ns)) refl o (node_ids-Occurs n ns)
    where
      rest : List String
      rest = node_ids lower precedes nodes ns

      by_member :
          (b : Bool)
          → member m.id rest ≡ b
          → Occurs n (m ∷ ns)
          → (Occurs n ns → Occurs n.id rest)
          → Occurs n.id (if b then rest else m.id ∷ rest)
      by_member true q (inl r) f = subst (λ x. Occurs x.id rest) (sym r) (member-Occurs m.id rest q)
      by_member true q (inr o) f = f o
      by_member false q (inl r) f = inl (ap (λ x. x.id) r)
      by_member false q (inr o) f = inr (f o)

  -- An id that raises no issue
  abbrev IsUnissued : String → Type 0
  IsUnissued id = (is_blank_text id ≡ false) × (ltb 1 (count lower precedes nodes nodes id) ≡ false)

  id_issues_none :
      (id : String) (is : List String)
      → is_empty (id_issues lower precedes nodes is) ≡ true
      → Occurs id is
      → IsUnissued id
  unfolding id_issues
  id_issues_none id [] h o = absurd o
  id_issues_none id (j ∷ js) h o =
      by_tests (is_blank_text j) (ltb 1 (count lower precedes nodes nodes j)) refl refl h o
        (id_issues_none id js)
    where
      later : List GraphIssue
      later = id_issues lower precedes nodes js

      by_tests :
          (a b : Bool)
          → is_blank_text j ≡ a
          → ltb 1 (count lower precedes nodes nodes j) ≡ b
          → is_empty (
              if a
              then missing_node_id j ∷ later
              else if b
              then duplicate_node_id j (count lower precedes nodes nodes j) ∷ later
              else later)
            ≡ true
          → Occurs id (j ∷ js)
          → (is_empty later ≡ true → Occurs id js → IsUnissued id)
          → IsUnissued id
      by_tests true b p q h o f = absurd (cc (h))
      by_tests false true p q h o f = absurd (cc (h))
      by_tests false false p q h (inl r) f = subst IsUnissued (sym r) (p, q)
      by_tests false false p q h (inr o) f = f h o

  named :
      is_empty (
          id_issues lower precedes nodes
            (sort_texts lower precedes (node_ids lower precedes nodes nodes)))
        ≡ true
      → All IsNamed nodes
  named h = Occurs→All IsNamed nodes λ n o.
      let (a, b) =
        id_issues_none n.id _ h
          (sort_texts-Occurs lower precedes n.id _ (node_ids-Occurs n nodes o)) in
      record { usable = a; unique = once _ (count_positive n.id nodes n refl o) b }
    where
      once : (c : ℕ) → 1 ≤ c → ltb 1 c ≡ false → c ≡ 1
      once c p q = ground (arith)

  module _ (run_id : String) where
    -- An edge whose ends are nodes of kinds that its kind may connect; a decision may leave to the
    -- export of the run, and to nothing else.
    pub record IsSoundEdge (e : Edge) : Type 0 where
      pub source : is_some (node_kind lower precedes nodes e.source) ≡ true
      pub target :
          (is_some (node_kind lower precedes nodes e.target) ≡ true)
          ⊎ (external_export lower precedes nodes run_id e ≡ true)
      pub kinds :
          wrong_kinds e.kind
            (node_kind lower precedes nodes e.source)
            (node_kind lower precedes nodes e.target)
          ≡ false
      pub decision :
          ((e.kind === "decides") ≡ false) ⊎ (external_export lower precedes nodes run_id e ≡ true)

    -- A link that is no issue
    abbrev IsClean : Link → Type 0
    IsClean (unresolved fields) = ⊥
    IsClean mismatch = ⊥
    IsClean _ = Unit

    clean-IsSoundEdge : (e : Edge) → IsClean (link_of lower precedes nodes run_id e) → IsSoundEdge e
    unfolding link_of
    clean-IsSoundEdge e c =
        by_tests (is_some (node_kind lower precedes nodes e.source))
          (is_some (node_kind lower precedes nodes e.target))
          (external_export lower precedes nodes run_id e)
          (wrong_kinds e.kind (node_kind lower precedes nodes e.source)
            (node_kind lower precedes nodes e.target))
          (e.kind === "decides") refl refl refl refl refl c
      where
        fields : Bool → Bool → Bool → List String
        fields a b x = (if a then [] else "from" ∷ []) ++ (if b || x then [] else "to" ∷ [])

        by_tests :
            (a b x w d : Bool)
            → is_some (node_kind lower precedes nodes e.source) ≡ a
            → is_some (node_kind lower precedes nodes e.target) ≡ b
            → external_export lower precedes nodes run_id e ≡ x
            → wrong_kinds e.kind
                (node_kind lower precedes nodes e.source)
                (node_kind lower precedes nodes e.target)
              ≡ w
            → (e.kind === "decides") ≡ d
            → IsClean (
                if not (is_empty (fields a b x))
                then unresolved (fields a b x)
                else if w || (d && not x)
                then mismatch
                else lineage lower precedes nodes run_id e)
            → IsSoundEdge e
        by_tests true true true false d p q r s t c = record {
          source = p;
          target = inl q;
          kinds = s;
          decision = inr r;
        }
        by_tests true false true false d p q r s t c = record {
          source = p;
          target = inr r;
          kinds = s;
          decision = inr r;
        }
        by_tests true true false false false p q r s t c = record {
          source = p;
          target = inl q;
          kinds = s;
          decision = inl t;
        }
        by_tests false b true w d p q r s t c = absurd c
        by_tests false true false w d p q r s t c = absurd c
        by_tests false false false w d p q r s t c = absurd c
        by_tests true false false w d p q r s t c = absurd c
        by_tests true true x true d p q r s t c = absurd c
        by_tests true false true true d p q r s t c = absurd c
        by_tests true true false false true p q r s t c = absurd c

    step_issues :
        (i : ℕ) (e : Edge) (k : Link) (l : Links)
        → is_empty (add_link lower precedes nodes run_id i e k l).issues ≡ true
        → (is_empty l.issues ≡ true) × IsClean k
    unfolding add_link
    step_issues i e (unresolved fields) l h = absurd (not_empty (is_empty-append l.issues _ h).1)
      where
        not_empty : false ≡ true → ⊥
        not_empty h = cc (h)
    step_issues i e mismatch l h = absurd (not_empty (is_empty-append l.issues _ h).1)
      where
        not_empty : false ≡ true → ⊥
        not_empty h = cc (h)
    step_issues i e (risk_test t) l h = (h, tt)
    step_issues i e (placement t) l h = (h, tt)
    step_issues i e (executed_test t) l h = (h, tt)
    step_issues i e unsourced l h = (h, tt)
    step_issues i e changed_risk l h = (h, tt)
    step_issues i e other l h = (h, tt)

    scan_issues :
        (i : ℕ) (es : List Edge) (l : Links)
        → is_empty (scan lower precedes nodes run_id i es l).issues ≡ true
        → (is_empty l.issues ≡ true) × All IsSoundEdge es
    unfolding scan
    scan_issues i [] l h = (h, tt)
    scan_issues i (e ∷ es) l h =
        let (a, b) = scan_issues (suc i) es _ h in
        let (c, k) = step_issues i e _ l a in (c, (clean-IsSoundEdge e k, b))

    -- Where the analysis of a graph is valid, every node has a usable id of its own, and every edge
    -- ends at such nodes, of kinds that its kind may connect.
    pub valid-IsSoundEdge :
        (edges : List Edge)
        → is_valid (analyze_graph lower precedes nodes run_id edges) ≡ true
        → All IsNamed nodes × All IsSoundEdge edges
    unfolding analyze_graph
    valid-IsSoundEdge edges h =
        let (a, b) = scan_issues 0 edges (before_edges lower precedes nodes run_id) h in
        (named a, b)
