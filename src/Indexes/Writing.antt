-- ===== src/Indexes/Writing.antt =====
-- What save writes, and that load reads it back (indexes.py).
use mathlib.Core.List.{append-nil, append_assoc}
use harness_auto_test_eviden.Prelude.{
  ℕ, suc, true, false, none, some, List, [], ◌∷◌, ◌++◌, map, ◌≡◌, refl, sym, ap, ◌∙◌, subst, inl,
  inr, Bool-cases, All, All-of, is_empty, and_true,
}
use harness_auto_test_eviden.CodePoints.{
  Codes, before, same_codes, same_codes_iff, strip, strip_start, strip_end, strip_visible, is_space,
  print_lines, file_lines-print_lines, IsOneLine,
}
use harness_auto_test_eviden.Indexes.{
  IndexEntry, Fields, fields, Json, Files, Entries, IndexFile, content, text, object, done,
  is_usable, get_item, store, sort_items, insert_sorted, validate, to_jsonl, from_jsonl, entry_of,
  load_line, load_lines, load_entries, load, save_lines, saved_text, save, written, hex_of,
}
use harness_auto_test_eviden.Indexes.Sound.{
  IsEntry, IsIndex, IsEntry-entry_path, get_item-store_other,
}
use harness_auto_test_eviden.Indexes.Sorting.{
  IsUnique, find_head, find_tail, unfound_tail, get_item-insert_sorted, get_item-sort_items,
  sort_items_same, same_codes_sym,
}

abbrev pub all_fields : {M : Type 0} → IndexEntry M → Fields M
all_fields e = record {
  key = some (text e.key);
  value = some (text e.value);
  hash = some (text e.hash);
  metadata = some (object e.metadata);
}

store_new :
    {V : Type 0} (k : Codes) (v : V) (d : List (Codes × V))
    → get_item k d ≡ none
    → store k v d ≡ d ++ ((k, v) ∷ [])
unfolding store
store_new k v [] h = refl
store_new k v ((j, w) ∷ d) h =
    let (f, h') = unfound_tail k j w d h in rw f (ap (◌∷◌ (j, w)) (store_new k v d h'))

find_empty : {V : Type 0} (k : Codes) → get_item {V = V} k [] ≡ none
unfolding get_item
find_empty k = refl

-- None of the keys of the items is found.
abbrev IsFresh : {V W : Type 0} → List (Codes × V) → List (Codes × W) → Type 0
IsFresh d items = All (λ x. get_item x.0 d ≡ none) items

IsFresh-store :
    {V W : Type 0} (k : Codes) (v : V) (d : List (Codes × V)) (items : List (Codes × W))
    → get_item k items ≡ none
    → IsFresh d items
    → IsFresh (store k v d) items
IsFresh-store k v d [] h f = tt
IsFresh-store k v d ((j, w) ∷ items) h (a, f) =
    let (n, h') = unfound_tail k j w items h in
    (get_item-store_other j k v d (same_codes_sym j k n) ∙ a, IsFresh-store k v d items h' f)

is_usable-is_empty : (s : Codes) → is_usable s ≡ true → is_empty s ≡ false
unfolding strip strip_start strip_end
is_usable-is_empty [] h = absurd (cc (h))
is_usable-is_empty (c ∷ cs) h = refl

module _ {M : Type 0} (json : Json M) (files : Files) where
  -- What json does for one entry: the text is an object on one line, whose line breaks are escaped,
  -- and strict_json_loads gives its four fields back.
  pub record IsReadBack (e : IndexEntry M) : Type 0 where
    pub body : Codes
    pub braces : json.dumps e ≡ 123 ∷ (body ++ (125 ∷ []))
    pub one_line : IsOneLine (json.dumps e)
    pub parsed : json.loads (json.dumps e) ≡ some (fields (all_fields e))

  IsUnique-of : (d : Entries M) → IsIndex json files d → IsUnique d
  IsUnique-of [] i = tt
  IsUnique-of ((k, e) ∷ d) (_, n, i) = (n, IsUnique-of d i)

  IsReadBack-strip : (e : IndexEntry M) → IsReadBack e → strip (json.dumps e) ≡ json.dumps e
  unfolding is_space
  IsReadBack-strip e r =
      subst (λ s. strip s ≡ s) (sym r.braces) (strip_visible 123 125 r.body refl refl)

  validate-is_empty :
      (e : IndexEntry M)
      → validate json e ≡ true
      → (is_empty e.key ≡ false) × (is_empty e.value ≡ false) × (is_empty e.hash ≡ false)
  unfolding validate
  validate-is_empty e v =
      let (a, v') = and_true (is_usable e.key) _ v in
      let (b, v') = and_true (is_usable e.value) _ v' in
      let (c, _) = and_true (is_usable e.hash) _ v' in
      (is_usable-is_empty e.key a, is_usable-is_empty e.value b, is_usable-is_empty e.hash c)

  from_jsonl-dumps :
      (e : IndexEntry M)
      → IsReadBack e
      → validate json e ≡ true
      → from_jsonl json (json.dumps e) ≡ done e
  unfolding from_jsonl entry_of
  from_jsonl-dumps e r v = let (a, b, c) = validate-is_empty e v in rw (r.parsed, a, b, c, v) refl

  load_line-dumps :
      (firsts : List (Codes × ℕ)) (n : ℕ) (e : IndexEntry M)
      → IsReadBack e
      → IsEntry json files e.key e
      → get_item e.key firsts ≡ none
      → load_line json files firsts n (json.dumps e) ≡ done e
  unfolding load_line
  load_line-dumps firsts n e r i f =
      rw
        (
          IsReadBack-strip e r,
          from_jsonl-dumps e r i.valid,
          IsEntry-entry_path json files e.key e i,
          f,
        )
        refl

  dumps_first : (e : IndexEntry M) → IsReadBack e → is_empty (strip (json.dumps e)) ≡ false
  dumps_first e r = ap is_empty (IsReadBack-strip e r ∙ r.braces)

  abbrev printed : Entries M → List Codes
  printed = map (λ x. json.dumps x.1)

  -- The loop of load over printed items appends them.
  load_lines-printed :
      (loaded : Entries M) (firsts : List (Codes × ℕ)) (n : ℕ) (items : Entries M)
      → IsIndex json files items
      → All (λ x. IsReadBack x.1) items
      → IsFresh loaded items
      → IsFresh firsts items
      → load_lines json files loaded firsts n (printed items) ≡ done (loaded ++ items)
  unfolding load_lines
  load_lines-printed loaded firsts n [] i r f g = ap done (sym (append-nil loaded))
  load_lines-printed loaded firsts n ((k, e) ∷ items) (s, m, i) (r, rs) (a, f) (b, g) =
      let key = sym s.keyed in
      let unseen = subst (λ x. get_item x firsts ≡ none) key b in
      let sound = subst (λ x. IsEntry json files x e) key s in
      rw (dumps_first e r, load_line-dumps firsts (suc n) e r sound unseen)
        (subst
          (λ x.
            load_lines json files (store x e loaded) (store x (suc n) firsts) (suc n)
              (printed items)
            ≡ done (loaded ++ ((k, e) ∷ items)))
          key
          (load_lines-printed (store k e loaded) (store k (suc n) firsts) (suc n) items i rs
              (IsFresh-store k e loaded items m f) (IsFresh-store k (suc n) firsts items m g)
            ∙ ap done (
                ap (λ l. l ++ items) (store_new k e loaded a)
                ∙ append_assoc loaded ((k, e) ∷ []) items)))

  save_lines-printed :
      (items : Entries M)
      → IsIndex json files items
      → save_lines json files items ≡ done (printed items)
  unfolding save_lines to_jsonl
  save_lines-printed [] i = refl
  save_lines-printed ((k, e) ∷ items) (s, _, i) =
      rw
        (
          (same_codes_iff k e.key).1 (sym s.keyed),
          IsEntry-entry_path json files k e s,
          s.valid,
          save_lines-printed items i,
        )
        refl

  -- Every entry that the dict finds is read back.
  abbrev pub IsReadable : Entries M → Type 0
  IsReadable d = (k : Codes) (e : IndexEntry M) → get_item k d ≡ some e → IsReadBack e

  IsReadable→All : (d : Entries M) → IsUnique d → IsReadable d → All (λ x. IsReadBack x.1) d
  IsReadable→All [] u r = tt
  IsReadable→All ((k, e) ∷ d) (n, u) r = (
    r k e (find_head k e d),
    IsReadable→All d u λ j a h. r j a (find_tail j k e d (other j h) ∙ h),
  )
    where
      other : {a : IndexEntry M} (j : Codes) → get_item j d ≡ some a → same_codes j k ≡ false
      other j h = elim (Bool-cases (same_codes j k)) [
        | inl t ↦
            absurd (cc (h, subst (λ x. get_item x d ≡ none) (sym ((same_codes_iff j k).0 t)) n))
        | inr f ↦ f
      ]

  insert_sorted-IsIndex :
      (k : Codes) (e : IndexEntry M) (d : Entries M)
      → IsEntry json files k e
      → get_item k d ≡ none
      → IsIndex json files d
      → IsIndex json files (insert_sorted k e d)
  unfolding insert_sorted
  insert_sorted-IsIndex k e [] s n i = (s, find_empty k, tt)
  insert_sorted-IsIndex k e ((j, w) ∷ d) s n (a, m, i) =
      let (f, n') = unfound_tail k j w d n in
      let unfound = get_item-insert_sorted j k e d n' ∙ rw (same_codes_sym j k f) m in
      elim (Bool-cases (before j k)) [
        | inl t ↦ rw t (a, unfound, insert_sorted-IsIndex k e d s n' i)
        | inr t ↦ rw t (s, n, (a, m, i))
      ]

  sort_items-IsIndex : (d : Entries M) → IsIndex json files d → IsIndex json files (sort_items d)
  unfolding sort_items
  sort_items-IsIndex [] i = tt
  sort_items-IsIndex ((k, e) ∷ d) (s, n, i) =
      insert_sorted-IsIndex k e (sort_items d) s (get_item-sort_items k d (IsUnique-of d i) ∙ n)
        (sort_items-IsIndex d i)

  saved :
      (d : Entries M)
      → IsIndex json files d
      → saved_text json files d ≡ done (print_lines (printed (sort_items d)))
  unfolding saved_text
  saved d i = rw (save_lines-printed (sort_items d) (sort_items-IsIndex d i)) refl

  printed_lines :
      (items : Entries M) → All (λ x. IsReadBack x.1) items → All IsOneLine (printed items)
  printed_lines [] r = tt
  printed_lines (x ∷ items) (a, r) = (a.one_line, printed_lines items r)

  fresh : (V : Type 0) (items : Entries M) → IsFresh {V = V} [] items
  fresh V items = All-of (λ x. find_empty x.0) items

  -- Where json reads back the entries of a sound index, saving it raises nothing and returns the
  -- hash of what it writes; loading the written file into any index gives the sorted items and
  -- raises nothing; and every key finds there what it found before.
  pub save-load :
      (entries old : Entries M) (f : IndexFile) (k : Codes)
      → IsIndex json files entries
      → IsReadable entries
      → (s : Codes) × (save json files entries f written
          ≡ (content s, done (hex_of json files (files.encode s))))
        × (load json files old (content s) ≡ (sort_items entries, none))
        × (get_item k (sort_items entries) ≡ get_item k entries)
  unfolding save load load_entries
  save-load entries old f k i r =
      let items = sort_items entries in
      let u = IsUnique-of entries i in
      let i' = sort_items-IsIndex entries i in
      let r' =
        IsReadable→All items (IsUnique-of items i')
          (λ j e h. r j e (sym (get_item-sort_items j entries u) ∙ h)) in
      (
        print_lines (printed items),
        rw (saved entries i) refl,
        rw
            (
              file_lines-print_lines (printed items) (printed_lines items r'),
              load_lines-printed [] [] 0 items i' r' (fresh (IndexEntry M) items) (fresh ℕ items),
            )
            refl,
        get_item-sort_items k entries u,
      )

  -- What save writes depends on what the index finds, and not on the order of its insertions.
  saved_text_same :
      (a b : Entries M)
      → IsIndex json files a
      → IsIndex json files b
      → ((k : Codes) → get_item k a ≡ get_item k b)
      → saved_text json files a ≡ saved_text json files b
  saved_text_same a b i j h =
      saved a i
      ∙ ap (λ d. done (print_lines (printed d)))
          (sort_items_same a b (IsUnique-of a i) (IsUnique-of b j) h)
      ∙ sym (saved b j)
