-- ===== src/Indexes/Sound.antt =====
-- What a sound index is, and that load and add_entry give nothing else (indexes.py).
use harness_auto_test_eviden.Prelude.{
  Bool, true, false, Option, none, some, List, [], ◌∷◌, ◌≡◌, refl, sym, ◌∙◌, subst, inl, inr,
  Bool-cases,
}
use harness_auto_test_eviden.CodePoints.{Codes, same_codes, same_codes_refl, same_codes_iff}
use harness_auto_test_eviden.Indexes.{
  IndexEntry, Json, Files, PathParts, Entries, IndexError, Result, done, raised, ◌>>=◌, value_error,
  os_error, raise_unless, raise_if_none, rewrap, is_strictly_under, get_item, store, validate,
  admit, entry_path,
}

-- What a chain of outcomes that is done went through.
module _ {ℓ} {A B : Type ℓ} where
  pub bind_done :
      (m : Result A) (f : A → Result B) {b : B}
      → m >>= f ≡ done b
      → (a : A) × (m ≡ done a) × (f a ≡ done b)
  bind_done (done a) f h = (a, refl, h)
  bind_done (raised e) f h = absurd (cc (h))

module _ {ℓ} {A : Type ℓ} where
  pub rewrap_done :
      (w : IndexError → IndexError) (m : Result A) {a : A} → rewrap w m ≡ done a → m ≡ done a
  rewrap_done w (done b) h = h
  rewrap_done w (raised e) h = absurd (cc (h))

  pub unless_done :
      (e : IndexError) (b : Bool) (x : A) {a : A}
      → raise_unless e b x ≡ done a
      → (b ≡ true) × (x ≡ a)
  unless_done e true x h = (refl, cc (h))
  unless_done e false x h = absurd (cc (h))

  pub none_done : (e : IndexError) (o : Option A) {a : A} → raise_if_none e o ≡ done a → o ≡ some a
  none_done e (some x) h = cc (h)
  none_done e none h = absurd (cc (h))

module _ {ℓ} {V : Type ℓ} where
  pub get_item-store :
      (k : Codes) (v : V) (d : List (Codes × V)) → get_item k (store k v d) ≡ some v
  unfolding get_item store
  get_item-store k v [] = rw (same_codes_refl k) refl
  get_item-store k v ((j, w) ∷ d) = elim (Bool-cases (same_codes k j)) [
    | inl t ↦ rw (t, t) refl
    | inr f ↦ rw (f, f) (get_item-store k v d)
  ]

  pub get_item-store_other :
      (j k : Codes) (v : V) (d : List (Codes × V))
      → same_codes j k ≡ false
      → get_item j (store k v d) ≡ get_item j d
  unfolding get_item store
  get_item-store_other j k v [] n = rw n refl
  get_item-store_other j k v ((i, w) ∷ d) n = elim (Bool-cases (same_codes k i)) [
    | inl t ↦ rw (t, subst (λ x. same_codes j x ≡ false) ((same_codes_iff k i).0 t) n) refl
    | inr f ↦ rw f (elim (Bool-cases (same_codes j i)) [
      | inl t ↦ rw t refl
      | inr g ↦ rw g (get_item-store_other j k v d n)
    ])
  ]

module _ {M : Type 0} (json : Json M) (files : Files) where
  -- An entry under a key that the code can resolve: valid, of this key, and strictly in the store.
  pub record IsEntry (k : Codes) (e : IndexEntry M) : Type 0 where
    pub valid : validate json e ≡ true
    pub keyed : e.key ≡ k
    pub path : PathParts
    pub resolved : files.resolve e.value ≡ some path
    pub inside : is_strictly_under files.root path ≡ true

  -- Entries as load and add_entry keep them: each sound under its key, and each key once.
  abbrev pub IsIndex : Entries M → Type 0
  IsIndex [] = Unit
  IsIndex ((k, e) ∷ d) = IsEntry k e × (get_item k d ≡ none) × IsIndex d

  pub entry_path-IsEntry :
      (k : Codes) (e : IndexEntry M) {path : PathParts}
      → entry_path json files k e ≡ done path
      → IsEntry k e
  unfolding entry_path
  entry_path-IsEntry k e h =
      let (_, admitted, h) = bind_done (admit json e) _ (rewrap_done _ _ h) in
      let (_, named, h) = bind_done (raise_unless value_error (same_codes e.key k) e) _ h in
      let (path, found, h) = bind_done (raise_if_none os_error (files.resolve e.value)) _ h in
      let (inside, _) = unless_done value_error (is_strictly_under files.root path) path h in
      record {
        valid = (unless_done value_error (validate json e) e admitted).0;
        keyed = (same_codes_iff e.key k).0 (unless_done value_error _ e named).0;
        path = path;
        resolved = none_done os_error _ found;
        inside = inside;
      }

  pub IsEntry-entry_path :
      (k : Codes) (e : IndexEntry M) (i : IsEntry k e) → entry_path json files k e ≡ done i.path
  unfolding entry_path
  IsEntry-entry_path k e i =
      rw (i.valid, (same_codes_iff e.key k).1 i.keyed, i.resolved, i.inside) refl

  pub get_item-IsEntry :
      (k : Codes) (d : Entries M) {e : IndexEntry M}
      → IsIndex d
      → get_item k d ≡ some e
      → IsEntry k e
  unfolding get_item
  get_item-IsEntry k [] i h = absurd (cc (h))
  get_item-IsEntry k ((j, w) ∷ d) {e} (a, b, c) h = elim (Bool-cases (same_codes k j)) [
    | inl t ↦
        subst (λ x. IsEntry x e) (sym ((same_codes_iff k j).0 t)) (subst (IsEntry j) (first t) a)
    | inr f ↦ get_item-IsEntry k d c (later f)
  ]
    where
      first : same_codes k j ≡ true → w ≡ e
      first t = cc (t, h)

      later : same_codes k j ≡ false → get_item k d ≡ some e
      later f = cc (f, h)

  pub store-IsIndex :
      (k : Codes) (e : IndexEntry M) (d : Entries M)
      → IsEntry k e
      → IsIndex d
      → IsIndex (store k e d)
  unfolding store get_item
  store-IsIndex k e [] a i = (a, refl, tt)
  store-IsIndex k e ((j, w) ∷ d) a (b, c, i) = elim (Bool-cases (same_codes k j)) [
    | inl t ↦ rw t (subst (λ x. IsEntry x e) ((same_codes_iff k j).0 t) a, c, i)
    | inr f ↦ rw f (b, get_item-store_other j k e d (other f) ∙ c, store-IsIndex k e d a i)
  ]
    where
      other : same_codes k j ≡ false → same_codes j k ≡ false
      other f = elim (Bool-cases (same_codes j k)) [
        | inl t ↦ absurd (cc (f, (same_codes_iff k j).1 (sym ((same_codes_iff j k).0 t))))
        | inr g ↦ g
      ]
