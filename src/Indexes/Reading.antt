-- ===== src/Indexes/Reading.antt =====
-- What load, add_entry and lookup promise (indexes.py).
use harness_auto_test_eviden.Prelude.{
  ℕ, suc, ◌+◌, true, false, not, Option, none, some, List, [], ◌∷◌, ◌≡◌, refl, sym, ap, ◌∙◌, subst,
  inl, inr, if◌then◌else◌, Bool-cases, arith, is_empty, get_or, length,
}
use harness_auto_test_eviden.CodePoints.{Codes, same_codes, same_codes_iff, strip, file_lines}
use harness_auto_test_eviden.Indexes.{
  IndexEntry, Json, Files, Entries, IndexFile, missing, broken, content, Result, done, raised,
  ◌>>=◌, os_error, raise_unless, raise_if_none, raise_if_seen, rewrap, is_under, get_item, store,
  new_entry, admit, from_jsonl, entry_path, load_line, load_lines, load_entries, add_entry, load,
  settled,
}
use harness_auto_test_eviden.Indexes.Sound.{
  bind_done, rewrap_done, get_item-store, get_item-store_other, IsEntry, IsIndex,
  entry_path-IsEntry, store-IsIndex,
}

-- The lines that hold an entry
abbrev pub entry_count : List Codes → ℕ
entry_count [] = 0
entry_count (l ∷ ls) = let rest = entry_count ls in if is_empty (strip l) then rest else suc rest

length-store_new :
    {V : Type 0} (k : Codes) (v : V) (d : List (Codes × V))
    → get_item k d ≡ none
    → length (store k v d) ≡ suc (length d)
unfolding get_item store
length-store_new k v [] h = refl
length-store_new k v ((j, w) ∷ d) h = elim (Bool-cases (same_codes k j)) [
  | inl t ↦ absurd (cc (t, h))
  | inr f ↦ rw f (ap suc (length-store_new k v d (later f)))
]
  where
    later : same_codes k j ≡ false → get_item k d ≡ none
    later f = cc (f, h)

find_stored :
    {V : Type 0} (j k : Codes) (v : V) (d : List (Codes × V))
    → get_item j (store k v d) ≡ (if same_codes j k then some v else get_item j d)
find_stored j k v d = elim (Bool-cases (same_codes j k)) [
  | inl t ↦ rw t (
      subst (λ x. get_item x (store k v d) ≡ some v) (sym ((same_codes_iff j k).0 t))
        (get_item-store k v d))
  | inr f ↦ rw f (get_item-store_other j k v d f)
]

-- The two dicts of load have the same keys.
abbrev HaveSameKeys : {V W : Type 0} → List (Codes × V) → List (Codes × W) → Type 0
HaveSameKeys a b = (k : Codes) → get_item k a ≡ none → get_item k b ≡ none

store-HaveSameKeys :
    {V W : Type 0} (k : Codes) (v : V) (w : W) (a : List (Codes × V)) (b : List (Codes × W))
    → HaveSameKeys a b
    → HaveSameKeys (store k v a) (store k w b)
store-HaveSameKeys k v w a b same j h = elim (Bool-cases (same_codes j k)) [
  | inl t ↦ absurd (found ((same_codes_iff j k).0 t))
  | inr f ↦ get_item-store_other j k w b f ∙ same j (sym (get_item-store_other j k v a f) ∙ h)
]
  where
    found : j ≡ k → ⊥
    found q = cc (sym (get_item-store k v a) ∙ subst (λ x. get_item x (store k v a) ≡ none) q h)

seen_done :
    {M : Type 0} (o : Option ℕ) (e : IndexEntry M) (n : ℕ) {a : IndexEntry M}
    → raise_if_seen o e n ≡ done a
    → o ≡ none
seen_done none e n h = refl
seen_done (some m) e n h = absurd (cc (h))

module _ {M : Type 0} (json : Json M) (files : Files) where
  load_line-IsEntry :
      (firsts : List (Codes × ℕ)) (n : ℕ) (line : Codes) {e : IndexEntry M}
      → load_line json files firsts n line ≡ done e
      → IsEntry json files e.key e × (get_item e.key firsts ≡ none)
  unfolding load_line
  load_line-IsEntry firsts n line {e} h =
      let (r, _, h) = bind_done (rewrap _ (from_jsonl json (strip line))) _ h in
      let (path, located, h) = bind_done (rewrap _ (entry_path json files r.key r)) _ h in
      let unseen = seen_done (get_item r.key firsts) r n h in
      let sound = entry_path-IsEntry json files r.key r (rewrap_done _ _ located) in
      subst (λ x. IsEntry json files x.key x × (get_item x.key firsts ≡ none)) (same _ unseen h)
        (sound, unseen)
    where
      same : {r : IndexEntry M} (o : Option ℕ) → o ≡ none → raise_if_seen o r n ≡ done e → r ≡ e
      same none q h = cc (h)
      same (some m) q h = absurd (cc (q))

  load_lines-IsIndex :
      (loaded : Entries M) (firsts : List (Codes × ℕ)) (n : ℕ) (lines : List Codes) {d : Entries M}
      → IsIndex json files loaded
      → HaveSameKeys firsts loaded
      → load_lines json files loaded firsts n lines ≡ done d
      → IsIndex json files d × (length d ≡ length loaded + entry_count lines)
  unfolding load_lines
  load_lines-IsIndex loaded firsts n [] {d} i same h =
      let e : loaded ≡ d = cc (h) in
      (subst (IsIndex json files) e i, ap length (sym e) ∙ omega arith)
  load_lines-IsIndex loaded firsts n (line ∷ lines) {d} i same h =
      elim (Bool-cases (is_empty (strip line))) [
        | inl t ↦
            let (a, b) = load_lines-IsIndex loaded firsts (suc n) lines i same (skipped t) in
            (a, b ∙ rw t refl)
        | inr f ↦
            let (e, r, h) = bind_done (load_line json files firsts (suc n) line) _ (read f) in
            let (sound, unseen) = load_line-IsEntry firsts (suc n) line r in
            let (a, b) =
              load_lines-IsIndex (store e.key e loaded) (store e.key (suc n) firsts) (suc n) lines
                (store-IsIndex json files e.key e loaded sound i)
                (store-HaveSameKeys e.key (suc n) e firsts loaded same) h in
            let grown = length-store_new e.key e loaded (same e.key unseen) in
            (a, b ∙ rw f (omega (arith, grown)))
      ]
    where
      skipped :
          is_empty (strip line) ≡ true → load_lines json files loaded firsts (suc n) lines ≡ done d
      skipped t = cc (t, h)

      read :
          is_empty (strip line) ≡ false
          → (load_line json files firsts (suc n) line >>= λ e.
              load_lines json files
                (store e.key e loaded)
                (store e.key (suc n) firsts)
                (suc n)
                lines)
            ≡ done d
      read f = cc (f, h)

  empty-HaveSameKeys : HaveSameKeys {V = ℕ} {W = IndexEntry M} [] []
  unfolding get_item
  empty-HaveSameKeys k h = refl

  -- Whatever load meets, a missing, a broken or a refused file included, a sound index stays one:
  -- each key stands once, and under it a valid entry of this key whose path is inside the store.
  pub load-IsIndex :
      (entries : Entries M) (f : IndexFile)
      → IsIndex json files entries
      → IsIndex json files (load json files entries f).0
  unfolding load load_entries
  load-IsIndex entries missing i = tt
  load-IsIndex entries broken i = i
  load-IsIndex entries (content s) i =
      by_outcome (load_lines json files [] [] 0 (file_lines s))
        (λ d. load_lines-IsIndex [] [] 0 (file_lines s) tt empty-HaveSameKeys)
    where
      by_outcome :
          (o : Result (Entries M))
          → ((d : Entries M)
              → o ≡ done d
              → IsIndex json files d × (length d ≡ 0 + entry_count (file_lines s)))
          → IsIndex json files (settled entries o).0
      by_outcome (done d) sound = (sound d refl).0
      by_outcome (raised e) sound = i

  -- A file that load accepts has an entry for each of its lines that is not blank: no line is
  -- dropped and none overwrites another.
  pub load_counts_lines :
      (entries : Entries M) (s : Codes)
      → (load json files entries (content s)).1 ≡ none
      → length (load json files entries (content s)).0 ≡ entry_count (file_lines s)
  unfolding load load_entries
  load_counts_lines entries s h =
      by_outcome (load_lines json files [] [] 0 (file_lines s))
        (λ d. load_lines-IsIndex [] [] 0 (file_lines s) tt empty-HaveSameKeys) h
    where
      by_outcome :
          (o : Result (Entries M))
          → ((d : Entries M)
              → o ≡ done d
              → IsIndex json files d × (length d ≡ 0 + entry_count (file_lines s)))
          → (settled entries o).1 ≡ none
          → length (settled entries o).0 ≡ entry_count (file_lines s)
      by_outcome (done d) counted h = omega (arith, (counted d refl).1)
      by_outcome (raised e) counted h = absurd (cc (h))

  -- Where add_entry adds an entry, a sound index stays sound, the key then finds the entry, and
  -- every other key finds what it found before.
  pub add_entry-IsIndex :
      (entries d : Entries M) (key value record_hash : Codes) (metadata : Option M)
      (e : IndexEntry M) (j : Codes)
      → IsIndex json files entries
      → add_entry json files entries key value record_hash metadata ≡ done (d, e)
      → IsIndex json files d
        × (get_item j d ≡ (if same_codes j key then some e else get_item j entries))
        × (e ≡ new_entry key value record_hash (get_or metadata json.blank))
  unfolding add_entry
  add_entry-IsIndex entries d key value record_hash metadata e j i h =
      let new = new_entry key value record_hash (get_or metadata json.blank) in
      let (_, _, h) = bind_done (raise_unless _ (not (is_empty key)) new) _ h in
      let (_, _, h) = bind_done (rewrap _ (admit json new)) _ h in
      let (resolved, _, h) = bind_done (raise_if_none os_error (files.resolve value)) _ h in
      let (_, _, h) = bind_done (raise_unless _ (is_under files.root resolved) new) _ h in
      let (path, located, h) = bind_done (entry_path json files key new) _ h in
      let sound = entry_path-IsEntry json files key new located in
      let (stored, made) = both h in
      (
        subst (IsIndex json files) stored (store-IsIndex json files key new entries sound i),
        subst (λ x. get_item j x ≡ (if same_codes j key then some e else get_item j entries)) stored
            (subst
              (λ x.
                get_item j (store key new entries)
                ≡ (if same_codes j key then some x else get_item j entries))
              made (find_stored j key new entries)),
        sym made,
      )
    where
      both :
          {a b : Entries M} {x y : IndexEntry M}
          → ◌≡◌ {A = Result (Entries M × IndexEntry M)} (done (a, x)) (done (b, y))
          → (a ≡ b) × (x ≡ y)
      both q = (cc (q), cc (q))
