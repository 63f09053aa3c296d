-- ===== src/Indexes/Sorting.antt =====
-- The items of a dict sorted by key (sorted in StoreIndex.save, indexes.py): they find what the dict
-- finds, and their order depends on nothing else.
use harness_auto_test_eviden.Prelude.{
  true, false, Option, none, some, List, [], ◌∷◌, ◌≡◌, refl, sym, ap, ◌∙◌, subst, inl, inr,
  if◌then◌else◌, Bool-cases, All, All-map,
}
use harness_auto_test_eviden.CodePoints.{
  Codes, same_codes, same_codes_refl, same_codes_iff, before, before_irrefl, before_trans,
  before_connex,
}
use harness_auto_test_eviden.Indexes.{get_item, insert_sorted, sort_items}

pub same_codes_sym : (j k : Codes) → same_codes k j ≡ false → same_codes j k ≡ false
same_codes_sym j k f = elim (Bool-cases (same_codes j k)) [
  | inl t ↦ absurd (cc (f, (same_codes_iff k j).1 (sym ((same_codes_iff j k).0 t))))
  | inr g ↦ g
]

module _ {V : Type 0} where
  -- What finding gives in a dict with one more item
  abbrev found_first : Codes → Codes → V → List (Codes × V) → Option V
  found_first j k v d = if same_codes j k then some v else get_item j d

  -- Each key stands once.
  abbrev pub IsUnique : List (Codes × V) → Type 0
  IsUnique [] = Unit
  IsUnique ((k, v) ∷ d) = (get_item k d ≡ none) × IsUnique d

  abbrev IsAfter : Codes → List (Codes × V) → Type 0
  IsAfter k = All (λ x. before k x.0 ≡ true)

  abbrev IsSorted : List (Codes × V) → Type 0
  IsSorted [] = Unit
  IsSorted ((k, v) ∷ d) = IsAfter k d × IsSorted d

  pub find_head : (k : Codes) (v : V) (d : List (Codes × V)) → get_item k ((k, v) ∷ d) ≡ some v
  unfolding get_item
  find_head k v d = rw (same_codes_refl k) refl

  pub find_tail :
      (j k : Codes) (v : V) (d : List (Codes × V))
      → same_codes j k ≡ false
      → get_item j ((k, v) ∷ d) ≡ get_item j d
  unfolding get_item
  find_tail j k v d f = rw f refl

  -- A key that is not found is not the first one, nor among the others.
  pub unfound_tail :
      (j k : Codes) (v : V) (d : List (Codes × V))
      → get_item j ((k, v) ∷ d) ≡ none
      → (same_codes j k ≡ false) × (get_item j d ≡ none)
  unfolding get_item
  unfound_tail j k v d h = elim (Bool-cases (same_codes j k)) [
    | inl t ↦ absurd (cc (t, h))
    | inr f ↦ (f, cc (f, h))
  ]

  pub get_item-insert_sorted :
      (j k : Codes) (v : V) (d : List (Codes × V))
      → get_item k d ≡ none
      → get_item j (insert_sorted k v d) ≡ found_first j k v d
  unfolding insert_sorted get_item
  get_item-insert_sorted j k v [] h = refl
  get_item-insert_sorted j k v ((i, w) ∷ d) h =
      let (f, h') = unfound_tail k i w d h in
      elim (Bool-cases (before i k)) [
        | inl t ↦ rw t (elim (Bool-cases (same_codes j i)) [
          | inl s ↦
              rw
                (
                  s,
                  subst (λ x. same_codes x k ≡ false) (sym ((same_codes_iff j i).0 s))
                      (same_codes_sym i k f),
                )
                refl
          | inr g ↦ rw g (get_item-insert_sorted j k v d h')
        ])
        | inr t ↦ rw t refl
      ]

  insert_sorted-IsAfter :
      (i k : Codes) (v : V) (d : List (Codes × V))
      → before i k ≡ true
      → IsAfter i d
      → IsAfter i (insert_sorted k v d)
  unfolding insert_sorted
  insert_sorted-IsAfter i k v [] b a = (b, tt)
  insert_sorted-IsAfter i k v ((j, w) ∷ d) b (c, a) = elim (Bool-cases (before j k)) [
    | inl t ↦ rw t (c, insert_sorted-IsAfter i k v d b a)
    | inr t ↦ rw t (b, (c, a))
  ]

  insert_sorted-IsSorted :
      (k : Codes) (v : V) (d : List (Codes × V))
      → get_item k d ≡ none
      → IsSorted d
      → IsSorted (insert_sorted k v d)
  unfolding insert_sorted
  insert_sorted-IsSorted k v [] h s = (tt, tt)
  insert_sorted-IsSorted k v ((j, w) ∷ d) h (a, s) =
      let (f, h') = unfound_tail k j w d h in
      elim (Bool-cases (before j k)) [
        | inl t ↦ rw t (insert_sorted-IsAfter j k v d t a, insert_sorted-IsSorted k v d h' s)
        | inr t ↦
            let b = before_connex j k t (same_codes_sym j k f) in
            rw t ((b, All-map (λ x. before_trans k j x.0 b) d a), (a, s))
      ]

  pub get_item-sort_items :
      (j : Codes) (d : List (Codes × V)) → IsUnique d → get_item j (sort_items d) ≡ get_item j d
  unfolding sort_items get_item
  get_item-sort_items j [] u = refl
  get_item-sort_items j ((k, v) ∷ d) (n, u) =
      get_item-insert_sorted j k v (sort_items d) (get_item-sort_items k d u ∙ n)
      ∙ ap (λ o. if same_codes j k then some v else o) (get_item-sort_items j d u)

  sort_items-IsSorted : (d : List (Codes × V)) → IsUnique d → IsSorted (sort_items d)
  unfolding sort_items
  sort_items-IsSorted [] u = tt
  sort_items-IsSorted ((k, v) ∷ d) (n, u) =
      insert_sorted-IsSorted k v (sort_items d) (get_item-sort_items k d u ∙ n)
        (sort_items-IsSorted d u)

  IsAfter-get_item : (k : Codes) (d : List (Codes × V)) → IsAfter k d → get_item k d ≡ none
  unfolding get_item
  IsAfter-get_item k [] a = refl
  IsAfter-get_item k ((j, v) ∷ d) (b, a) = elim (Bool-cases (same_codes k j)) [
    | inl t ↦
        absurd
          (cc (subst (λ x. before k x ≡ true) (sym ((same_codes_iff k j).0 t)) b, before_irrefl k))
    | inr f ↦ rw f (IsAfter-get_item k d a)
  ]

  -- The first key of a sorted dict is before those of the other, or is the first there too.
  unfound :
      (k j : Codes) (v w : V) (b : List (Codes × V))
      → before k j ≡ true
      → IsAfter j b
      → get_item k ((j, w) ∷ b) ≡ some v
      → ⊥
  unfound k j v w b t a h =
      cc (h, IsAfter-get_item k ((j, w) ∷ b) (t, All-map (λ x. before_trans k j x.0 t) b a))

  tails_find :
      (k x : Codes) (v : V) (a b : List (Codes × V))
      → IsAfter k a
      → IsAfter k b
      → get_item x ((k, v) ∷ a) ≡ get_item x ((k, v) ∷ b)
      → get_item x a ≡ get_item x b
  tails_find k x v a b p q h = elim (Bool-cases (same_codes x k)) [
    | inl t ↦
        let e = sym ((same_codes_iff x k).0 t) in
        subst (λ y. get_item y a ≡ get_item y b) e
          (IsAfter-get_item k a p ∙ sym (IsAfter-get_item k b q))
    | inr f ↦ sym (find_tail x k v a f) ∙ h ∙ find_tail x k v b f
  ]

  empty_unfound : (k : Codes) (v : V) → get_item k [] ≡ some v → ⊥
  unfolding get_item
  empty_unfound k v h = absurd (cc (h))

  sorted_same :
      (a b : List (Codes × V))
      → IsSorted a
      → IsSorted b
      → ((k : Codes) → get_item k a ≡ get_item k b)
      → a ≡ b
  sorted_same [] [] s t h = refl
  sorted_same [] ((k, v) ∷ b) s t h = absurd (empty_unfound k v (h k ∙ find_head k v b))
  sorted_same ((k, v) ∷ a) [] s t h = absurd (empty_unfound k v (sym (h k) ∙ find_head k v a))
  sorted_same ((k, v) ∷ a) ((j, w) ∷ b) (p, s) (q, t) h = elim (Bool-cases (same_codes k j)) [
    | inl e ↦
        let same_key = (same_codes_iff k j).0 e in
        let q' = subst (λ x. IsAfter x b) (sym same_key) q in
        let h' =
          subst (λ x. (i : Codes) → get_item i ((k, v) ∷ a) ≡ get_item i ((x, w) ∷ b))
            (sym same_key) h in
        let same_value = values (sym (find_head k v a) ∙ h' k ∙ find_head k w b) in
        let finds : (x : Codes) → get_item x a ≡ get_item x b = λ x.
          tails_find k x v a b p q' (h' x ∙ ap (λ y. get_item x ((k, y) ∷ b)) (sym same_value)) in
        cc (same_key, same_value, sorted_same a b s t finds)
    | inr n ↦ elim (Bool-cases (before k j)) [
      | inl l ↦ absurd (unfound k j v w b l q (sym (h k) ∙ find_head k v a))
      | inr g ↦ absurd (unfound j k w v a (before_connex k j g n) p (h j ∙ find_head j w b))
    ]
  ]
    where
      values : ◌≡◌ {A = Option V} (some v) (some w) → v ≡ w
      values q = cc (q)

  -- Two dicts that find the same under every key have one list of sorted items.
  pub sort_items_same :
      (a b : List (Codes × V))
      → IsUnique a
      → IsUnique b
      → ((k : Codes) → get_item k a ≡ get_item k b)
      → sort_items a ≡ sort_items b
  sort_items_same a b u w h =
      sorted_same (sort_items a) (sort_items b) (sort_items-IsSorted a u) (sort_items-IsSorted b w)
        (λ k. get_item-sort_items k a u ∙ h k ∙ sym (get_item-sort_items k b w))
