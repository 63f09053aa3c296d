-- ===== src/Indexes/Manager.antt =====
-- The seven indexes of a store together (MultiIndexManager in src/hate/store/indexes.py): they are
-- loaded and saved one after the other, and the first that raises ends the loop.
pub mod Together
mod Tests
use harness_auto_test_eviden.Prelude.{
  String, Bool, true, false, Option, none, some, List, [], ◌∷◌, map, ◌===◌, if◌then◌else◌, joined,
}
use harness_auto_test_eviden.CodePoints.{Codes}
use harness_auto_test_eviden.Indexes.{
  WriteOutcome, IndexEntry, Json, Files, Entries, IndexError, IndexFile, Result, done, raised, load,
  save, lookup,
}

-- A StoreIndex: its type, its entries, and the file at its path
pub record StoreIndex (M : Type 0) : Type 0 where
  pub index_type : String
  pub entries : Entries M
  pub file : IndexFile

-- The type of each index and the name of its file, in the order of _all_indexes
abbrev pub index_files : List (String × String)
index_files =
    ("runs", "runs.jsonl")
    ∷ ("bundles", "bundles.jsonl")
    ∷ ("evidence", "evidence.jsonl")
    ∷ ("risks", "risks.jsonl")
    ∷ ("artifacts", "artifacts.jsonl")
    ∷ ("requirements", "requirements.jsonl")
    ∷ ("source_refs", "source-refs.jsonl")
    ∷ []

-- MultiIndexManager(store_root), where `directory` has the files of indexes/
abbrev pub new_manager : {M : Type 0} → (String → IndexFile) → List (StoreIndex M)
new_manager directory =
    map (λ x. record { index_type = x.0; entries = []; file = directory x.1 }) index_files

abbrev pub entries_of : {M : Type 0} → String → List (StoreIndex M) → Entries M
entries_of type [] = []
entries_of type (i ∷ is) =
    let rest = entries_of type is in if i.index_type === type then i.entries else rest

module _ {M : Type 0} (json : Json M) (files : Files) where
  abbrev pub loaded_then :
      StoreIndex M
      → Entries M × Option IndexError
      → List (StoreIndex M)
      → List (StoreIndex M) × Option IndexError
      → List (StoreIndex M) × Option IndexError
  loaded_then i (entries, some e) is rest = (record i { entries = entries } ∷ is, some e)
  loaded_then i (entries, none) is (js, r) = (record i { entries = entries } ∷ js, r)

  -- load_all: the indexes afterwards, and what it raises
  unfoldable pub load_all : List (StoreIndex M) → List (StoreIndex M) × Option IndexError
  load_all [] = ([], none)
  load_all (i ∷ is) = loaded_then i (load json files i.entries i.file) is (load_all is)

  abbrev pub with_hash :
      String → Codes → Result (List (String × Codes)) → Result (List (String × Codes))
  with_hash type hash (done hashes) = done ((type, hash) ∷ hashes)
  with_hash type hash (raised e) = raised e

  abbrev pub saved_then :
      StoreIndex M
      → IndexFile × Result Codes
      → List (StoreIndex M)
      → List (StoreIndex M) × Result (List (String × Codes))
      → List (StoreIndex M) × Result (List (String × Codes))
  saved_then i (f, raised e) is rest = (record i { file = f } ∷ is, raised e)
  saved_then i (f, done hash) is (js, r) =
      (record i { file = f } ∷ js, with_hash i.index_type hash r)

  -- save_all: the indexes afterwards, and the hashes; `outcome` is that of each atomic write.
  unfoldable pub save_all :
      (outcome : String → WriteOutcome)
      → List (StoreIndex M)
      → List (StoreIndex M) × Result (List (String × Codes))
  save_all outcome [] = ([], done [])
  save_all outcome (i ∷ is) =
      saved_then i (save json files i.entries i.file (outcome i.index_type)) is
        (save_all outcome is)

  -- lookup_by_run_id and the other four
  unfoldable pub lookup_by_run_id :
      List (StoreIndex M) → Codes → (verify : Bool) → Result (IndexEntry M)
  lookup_by_run_id m key verify = lookup json files (entries_of "runs" m) key verify

  unfoldable pub lookup_by_requirement_ref :
      List (StoreIndex M) → Codes → (verify : Bool) → Result (IndexEntry M)
  lookup_by_requirement_ref m key verify =
      lookup json files (entries_of "requirements" m) key verify

  unfoldable pub lookup_by_risk_ref :
      List (StoreIndex M) → Codes → (verify : Bool) → Result (IndexEntry M)
  lookup_by_risk_ref m key verify = lookup json files (entries_of "risks" m) key verify

  unfoldable pub lookup_by_source_ref :
      List (StoreIndex M) → Codes → (verify : Bool) → Result (IndexEntry M)
  lookup_by_source_ref m key verify = lookup json files (entries_of "source_refs" m) key verify

  unfoldable pub lookup_by_artifact_id :
      List (StoreIndex M) → Codes → (verify : Bool) → Result (IndexEntry M)
  lookup_by_artifact_id m key verify = lookup json files (entries_of "artifacts" m) key verify
