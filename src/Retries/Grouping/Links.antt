-- ===== src/Retries/Grouping/Links.antt =====
-- Every edge from a test to an execution is a link, and every link is such an edge.
use harness_auto_test_eviden.Prelude.{
  String, Bool, true, false, some, List, [], ◌∷◌, ◌≡◌, refl, sym, ap, subst, ◌⊎◌, inl, inr, map,
  ◌===◌, ===-refl, member, if◌then◌else◌, Bool-cases, Occurs, eq_iff, and_true, arith,
  select-Occurs, Occurs-select, map-Occurs, Occurs-map, Occurs-append, Occurs-append_left,
  Occurs-append_right,
}
use harness_auto_test_eviden.EvidenceGraph.{Edge, add, sort_texts}
use harness_auto_test_eviden.EvidenceGraph.TextSets.{
  add-Occurs, add_keeps, Occurs-add, sort_texts-Occurs, Occurs-sort_texts,
}
use harness_auto_test_eviden.Retries.{Texts}
use harness_auto_test_eviden.Retries.Grouping.{
  BundleNode, node_id, is_link, links_of, named, all_named, or_none, linked,
}

Occurs-member : (t : String) (ts : List String) → Occurs t ts → member t ts ≡ true
Occurs-member t [] o = absurd o
Occurs-member t (u ∷ us) (inl q) = rw ((eq_iff t u).1 q) refl
Occurs-member t (u ∷ us) (inr o) = ground (arith, Occurs-member t us o)

module _ {J : Type 0} where
  module _ (executions : List (BundleNode J)) (test_id : String) where
    pub links-Occurs :
        (e : Edge) (edges : List Edge)
        → Occurs e edges
        → is_link executions test_id e ≡ true
        → Occurs e.target (links_of executions test_id edges)
    unfolding links_of
    links-Occurs e [] o h = absurd o
    links-Occurs e (f ∷ fs) o h = elim (Bool-cases (is_link executions test_id f)) [
      | inl g ↦ rw g (added o (links-Occurs e fs))
      | inr g ↦ rw g (skipped o g (links-Occurs e fs))
    ]
      where
        added :
            (e ≡ f) ⊎ Occurs e fs
            → (Occurs e fs
                → is_link executions test_id e ≡ true
                → Occurs e.target (links_of executions test_id fs))
            → Occurs e.target (add f.target (links_of executions test_id fs))
        added (inl q) later =
            subst (λ (x : Edge). Occurs x.target (add f.target (links_of executions test_id fs)))
              (sym q) (add-Occurs f.target (links_of executions test_id fs))
        added (inr o) later =
            add_keeps f.target e.target (links_of executions test_id fs) (later o h)

        skipped :
            (e ≡ f) ⊎ Occurs e fs
            → is_link executions test_id f ≡ false
            → (Occurs e fs
                → is_link executions test_id e ≡ true
                → Occurs e.target (links_of executions test_id fs))
            → Occurs e.target (links_of executions test_id fs)
        skipped (inl q) g later = absurd (cc (ap (is_link executions test_id) q, h, g))
        skipped (inr o) g later = later o h

    pub is_link-parts :
        (e : Edge)
        → is_link executions test_id e ≡ true
        → ((e.kind === "evidenced_by") ≡ true) × (e.source ≡ test_id)
    is_link-parts e h =
        let (kind, rest) = and_true (e.kind === "evidenced_by") _ h in
        let (source, _) = and_true (e.source === test_id) _ rest in
        (kind, (eq_iff e.source test_id).0 source)

    -- Every link is one of the edges.
    abbrev pub IsLinkOf : String → List Edge → Type 0
    IsLinkOf k edges =
        (e : Edge) × Occurs e edges × (is_link executions test_id e ≡ true) × (e.target ≡ k)

    pub Occurs-links :
        (k : String) (edges : List Edge)
        → Occurs k (links_of executions test_id edges)
        → IsLinkOf k edges
    unfolding links_of
    Occurs-links k [] o = absurd o
    Occurs-links k (f ∷ fs) o = by_link (is_link executions test_id f) refl o (Occurs-links k fs)
      where
        deeper : IsLinkOf k fs → IsLinkOf k (f ∷ fs)
        deeper (e, o, link, q) = (e, inr o, link, q)

        by_link :
            (b : Bool)
            → is_link executions test_id f ≡ b
            → Occurs k (
                if b
                then add f.target (links_of executions test_id fs)
                else links_of executions test_id fs)
            → (Occurs k (links_of executions test_id fs) → IsLinkOf k fs)
            → IsLinkOf k (f ∷ fs)
        by_link false h o later = deeper (later o)
        by_link true h o later = elim (Occurs-add f.target k (links_of executions test_id fs) o) [
          | inl o' ↦ deeper (later o')
          | inr q ↦ (f, inl refl, h, sym q)
        ]

  named-Occurs :
      (x : BundleNode J) (nodes : List (BundleNode J))
      → Occurs x nodes
      → Occurs x (named (node_id x) nodes)
  unfolding named
  named-Occurs x nodes o =
      select-Occurs (λ n. node_id n === node_id x) x nodes o (===-refl (node_id x))

  all_named-Occurs :
      (x : BundleNode J) (ids : List String) (nodes : List (BundleNode J))
      → Occurs (node_id x) ids
      → Occurs x nodes
      → Occurs x (all_named ids nodes)
  unfolding all_named
  all_named-Occurs x [] nodes o h = absurd o
  all_named-Occurs x (id ∷ ids) nodes (inl q) h =
      Occurs-append_left x (named id nodes) (all_named ids nodes)
        (subst (λ k. Occurs x (named k nodes)) q (named-Occurs x nodes h))
  all_named-Occurs x (id ∷ ids) nodes (inr o) h =
      Occurs-append_right x (named id nodes) (all_named ids nodes)
        (all_named-Occurs x ids nodes o h)

  Occurs-all_named :
      (x : BundleNode J) (ids : List String) (nodes : List (BundleNode J))
      → Occurs x (all_named ids nodes)
      → Occurs (node_id x) ids × Occurs x nodes
  unfolding all_named named
  Occurs-all_named x [] nodes o = absurd o
  Occurs-all_named x (id ∷ ids) nodes o =
      elim (Occurs-append x (named id nodes) (all_named ids nodes) o) [
        | inl h ↦
            (let (here, e) = Occurs-select (λ n. node_id n === id) x nodes h in
              (inl ((eq_iff (node_id x) id).0 e), here))
        | inr h ↦ (let (o', here) = Occurs-all_named x ids nodes h in (inr o', here))
      ]

  or_none-Occurs :
      (x : BundleNode J) (xs : List (BundleNode J)) → Occurs x xs → Occurs (some x) (or_none xs)
  or_none-Occurs x [] o = absurd o
  or_none-Occurs x (y ∷ ys) o = map-Occurs some x (y ∷ ys) o

  Occurs-or_none :
      (x : BundleNode J) (xs : List (BundleNode J)) → Occurs (some x) (or_none xs) → Occurs x xs
  Occurs-or_none x [] (inl q) = absurd (cc (q))
  Occurs-or_none x [] (inr o) = absurd o
  Occurs-or_none x (y ∷ ys) o =
      let (z, o', q) = Occurs-map some (some x) (y ∷ ys) o in
      subst (λ v. Occurs v (y ∷ ys)) (cc (q)) o'

  module _ (texts : Texts) (executions : List (BundleNode J)) (edges : List Edge) where
    -- An edge that leads from a test to an execution makes a link, and nothing else does.
    pub linked-Occurs :
        (t x : BundleNode J) (e : Edge)
        → Occurs x executions
        → Occurs e edges
        → (e.kind === "evidenced_by") ≡ true
        → e.source ≡ node_id t
        → e.target ≡ node_id x
        → Occurs (some x) (linked texts executions edges t)
    unfolding linked
    linked-Occurs t x e here o kind source target =
        let ids = links_of executions (node_id t) edges in
        let known : member e.target (map node_id executions) ≡ true =
          Occurs-member e.target (map node_id executions) (
            subst (λ k. Occurs k (map node_id executions)) (sym target)
              (map-Occurs node_id x executions here)) in
        let link : is_link executions (node_id t) e ≡ true =
          rw (kind, (eq_iff e.source (node_id t)).1 source, known) refl in
        let listed =
          subst (λ k. Occurs k ids) target (links-Occurs executions (node_id t) e edges o link) in
        or_none-Occurs x _ (
          all_named-Occurs x (sort_texts texts.lower texts.precedes ids) executions
            (sort_texts-Occurs texts.lower texts.precedes (node_id x) ids listed) here)

    pub Occurs-linked :
        (t x : BundleNode J)
        → Occurs (some x) (linked texts executions edges t)
        → Occurs x executions × IsLinkOf executions (node_id t) (node_id x) edges
    unfolding linked
    Occurs-linked t x o =
        let ids = links_of executions (node_id t) edges in
        let (listed, here) =
          Occurs-all_named x (sort_texts texts.lower texts.precedes ids) executions
            (Occurs-or_none x _ o) in
        (
          here,
          Occurs-links executions (node_id t) (node_id x) edges
              (Occurs-sort_texts texts.lower texts.precedes (node_id x) ids listed),
        )
