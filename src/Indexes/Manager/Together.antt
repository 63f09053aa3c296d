-- ===== src/Indexes/Manager/Together.antt =====
-- All indexes are read back as they were saved, and loading keeps them sound (MultiIndexManager).
use harness_auto_test_eviden.Prelude.{
  String, Option, none, some, List, [], ◌∷◌, map, ◌≡◌, refl, All,
}
use harness_auto_test_eviden.CodePoints.{Codes}
use harness_auto_test_eviden.Indexes.{
  written, Json, Files, Entries, IndexError, done, load, hex_of, sort_items,
}
use harness_auto_test_eviden.Indexes.Sound.{IsIndex}
use harness_auto_test_eviden.Indexes.Reading.{load-IsIndex}
use harness_auto_test_eviden.Indexes.Writing.{IsReadable, save-load}
use harness_auto_test_eviden.Indexes.Manager.{StoreIndex, loaded_then, load_all, save_all}

module _ {M : Type 0} (json : Json M) (files : Files) where
  abbrev pub IsSound : StoreIndex M → Type 0
  IsSound i = IsIndex json files i.entries

  abbrev pub IsSavable : StoreIndex M → Type 0
  IsSavable i = IsSound i × IsReadable json files i.entries

  -- The same files, opened again with no entries, and what is loaded from them
  abbrev pub reopened : StoreIndex M → StoreIndex M
  reopened i = record i { entries = [] }

  abbrev pub with_sorted : StoreIndex M → StoreIndex M
  with_sorted i = record i { entries = sort_items i.entries }

  -- What load_all leaves of sound indexes is sound, also where it raises.
  pub load_all-IsSound :
      (is : List (StoreIndex M)) → All IsSound is → All IsSound (load_all json files is).0
  unfolding load_all
  load_all-IsSound [] s = tt
  load_all-IsSound (i ∷ is) (a, s) =
      next (load json files i.entries i.file) (load_all json files is)
        (load-IsIndex json files i.entries i.file a) (load_all-IsSound is s)
    where
      next :
          (r : Entries M × Option IndexError) (rest : List (StoreIndex M) × Option IndexError)
          → IsIndex json files r.0
          → All IsSound rest.0
          → All IsSound (loaded_then json files i r is rest).0
      next (entries, none) (js, e) b t = (b, t)
      next (entries, some e) rest b t = (b, s)

  -- Where json reads back the entries of sound indexes and every write succeeds, save_all raises
  -- nothing, and a manager that loads the saved files has the sorted items of every index.
  pub save_all-load_all :
      (is : List (StoreIndex M))
      → All IsSavable is
      → (let saved = save_all json files (λ _. written) is in
          ((hashes : List (String × Codes)) × (saved.1 ≡ done hashes))
          × (load_all json files (map reopened saved.0) ≡ (map with_sorted saved.0, none)))
  unfolding save_all load_all
  save_all-load_all [] s = (([], refl), refl)
  save_all-load_all (i ∷ is) ((a, r), s) =
      let (text, saved, loaded, _) = save-load json files i.entries [] i.file [] a r in
      let ((hashes, q), l) = save_all-load_all is s in
      (
        ((i.index_type, hex_of json files (files.encode text)) ∷ hashes, rw (saved, q) refl),
        rw (saved, loaded, l) refl,
      )
