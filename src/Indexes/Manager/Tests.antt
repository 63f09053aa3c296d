-- ===== src/Indexes/Manager/Tests.antt =====
-- A store whose runs have two entries, and whose other indexes are empty.
use harness_auto_test_eviden.Prelude.{String, none, List, [], ◌∷◌, map, ◌≡◌, All}
use harness_auto_test_eviden.CodePoints.{Codes}
use harness_auto_test_eviden.Indexes.{missing, written, done, get_item}
use harness_auto_test_eviden.Indexes.Tests.{
  json, files, two_runs, two_runs-IsIndex, two_runs-IsReadable,
}
use harness_auto_test_eviden.Indexes.Writing.{IsReadable}
use harness_auto_test_eviden.Indexes.Manager.{StoreIndex, new_manager, load_all, save_all}
use harness_auto_test_eviden.Indexes.Manager.Together.{
  IsSavable, reopened, with_sorted, save_all-load_all,
}

abbrev with_runs : List (StoreIndex Unit) → List (StoreIndex Unit)
with_runs [] = []
with_runs (i ∷ is) = record i { entries = two_runs } ∷ is

abbrev seven_indexes : List (StoreIndex Unit)
seven_indexes = with_runs (new_manager (λ _. missing))

nothing-IsReadable : IsReadable json files []
unfolding get_item
nothing-IsReadable k e h = absurd (cc (h))

seven_indexes-IsSavable : All (IsSavable json files) seven_indexes
seven_indexes-IsSavable = (
  (two_runs-IsIndex, two_runs-IsReadable),
  (empty, (empty, (empty, (empty, (empty, (empty, tt)))))),
)
  where
    empty : IsSavable json files (record { index_type = "bundles"; entries = []; file = missing })
    empty = (tt, nothing-IsReadable)

save_all-load_all_example :
    (let saved = save_all json files (λ _. written) seven_indexes in
      ((hashes : List (String × Codes)) × (saved.1 ≡ done hashes))
      × (load_all json files (map (reopened json files) saved.0)
          ≡ (map (with_sorted json files) saved.0, none)))
save_all-load_all_example = save_all-load_all json files seven_indexes seven_indexes-IsSavable
