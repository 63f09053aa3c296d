-- ===== src/Indexes.antt =====
-- The indexes of a store (src/hate/store/indexes.py): entries, their file, and lookups.
-- `Json` stands for json.dumps and strict_json_loads on entries, and `Files` for what the code asks
-- of pathlib and hashlib. A file is its text: reading and writing UTF-8 loses nothing on the texts
-- that `validate` admits. Messages are left out; an error keeps its issue and its key.
mod Shapes
pub mod Sound
pub mod Reading
pub mod Sorting
pub mod Writing
pub mod Lookups
pub mod Chunks
pub mod Manager
mod Tests
use harness_auto_test_eviden.Prelude.{
  ℕ, zero, suc, ◌+◌, String, Bool, true, false, not, ◌&&◌, ◌||◌, Option, none, some, List, [], ◌∷◌,
  ◌++◌, ◌==◌, leb, all, length, is_empty, if◌then◌else◌, take, drop, get_or,
}
use harness_auto_test_eviden.CodePoints.{
  Codes, codes, same_codes, before, strip, file_lines, print_lines,
}
unfoldable pub use Shapes.*

module _ {M : Type 0} (json : Json M) where
  -- true where validate raises nothing
  unfoldable pub validate : IndexEntry M → Bool
  validate e =
      is_usable e.key
      && (is_usable e.value
          && (is_usable e.hash && (is_digest e.hash && json.is_encodable e.metadata)))

  unfoldable pub to_jsonl : IndexEntry M → Result Codes
  to_jsonl e = raise_unless value_error (validate e) (json.dumps e)

  abbrev pub admit : IndexEntry M → Result (IndexEntry M)
  admit e = raise_unless value_error (validate e) e

  unfoldable pub entry_of : Parsed M → Result (IndexEntry M)
  entry_of not_object = raised value_error
  entry_of (fields f) = do
    key ← text_field f.key
    value ← text_field f.value
    hash ← text_field f.hash
    metadata ← object_field json.blank f.metadata
    admit (new_entry key value hash metadata)

  unfoldable pub from_jsonl : Codes → Result (IndexEntry M)
  from_jsonl line = do parsed ← raise_if_none value_error (json.loads line); entry_of parsed

  module _ (files : Files) where
    abbrev pub within : PathParts → Result PathParts
    within path = raise_unless value_error (is_strictly_under files.root path) path

    -- _entry_path
    unfoldable pub entry_path : Codes → IndexEntry M → Result PathParts
    entry_path key e =
        rewrap (λ _. hard_dq "invalid_index_reference" key)
          (do
            checked ← admit e
            named ← raise_unless value_error (same_codes e.key key) e
            path ← raise_if_none os_error (files.resolve e.value)
            within path)

    -- One line of load that is not blank: line `n`, where `first_lines` are those of the keys so far
    unfoldable pub load_line : List (Codes × ℕ) → ℕ → Codes → Result (IndexEntry M)
    load_line first_lines n line =
        let corrupted = λ (e : IndexError). lookup_error "index_file_corrupted" [] (n ∷ []) in
        (do
          e ← rewrap corrupted (from_jsonl (strip line))
          path ← rewrap corrupted (entry_path e.key e)
          raise_if_seen (get_item e.key first_lines) e n)

    -- The loop of load: the entries so far, the lines of their keys, and the line before.
    unfoldable pub load_lines : Entries M → List (Codes × ℕ) → ℕ → List Codes → Result (Entries M)
    load_lines loaded first_lines line_number [] = done loaded
    load_lines loaded first_lines line_number (line ∷ lines) =
        let n = suc line_number in
        if is_empty (strip line) then load_lines loaded first_lines n lines else (do
          e ← load_line first_lines n line
          load_lines (store e.key e loaded) (store e.key n first_lines) n lines)

    unfoldable pub load_entries : IndexFile → Result (Entries M)
    load_entries missing = done []
    load_entries broken = raised (lookup_error "index_file_corrupted" [] (0 ∷ []))
    load_entries (content s) = load_lines [] [] 0 (file_lines s)

    -- StoreIndex.load: the entries afterwards, and what it raises
    unfoldable pub load : Entries M → IndexFile → Entries M × Option IndexError
    load entries f = settled entries (load_entries f)

    -- The loop of save over the sorted items
    unfoldable pub save_lines : Entries M → Result (List Codes)
    save_lines [] = done []
    save_lines ((key, e) ∷ items) = do
      same ← raise_unless (lookup_error "mapping_key_differs" key []) (same_codes key e.key) e
      line ←
          rewrap (λ _. lookup_error "invalid_index_entry" key [])
            (do path ← entry_path key e; to_jsonl e)
      lines ← save_lines items
      done (line ∷ lines)

    -- The content that save writes
    unfoldable pub saved_text : Entries M → Result Codes
    saved_text entries = do lines ← save_lines (sort_items entries); done (print_lines lines)

    abbrev pub hex_of : List ℕ → Codes
    hex_of data_ = codes "sha256:" ++ files.hexdigest (files.update files.start data_)

    -- StoreIndex.save: the file afterwards, and the hash that it returns, by the outcome of
    -- atomic_write_bytes
    unfoldable pub save : Entries M → IndexFile → WriteOutcome → IndexFile × Result Codes
    save entries f outcome = after (saved_text entries) outcome
      where
        after : Result Codes → WriteOutcome → IndexFile × Result Codes
        after (done s) written = (content s, done (hex_of (files.encode s)))
        after (done s) (write_failed published) =
            (if published then content s else f, raised (write_error published))
        after (raised e) o = (f, raised e)

    -- StoreIndex.add_entry
    unfoldable pub add_entry :
        Entries M → Codes → Codes → Codes → Option M → Result (Entries M × IndexEntry M)
    add_entry entries key value record_hash metadata =
        let e = new_entry key value record_hash (get_or metadata json.blank) in
        (do
          keyed ← raise_unless (hard_dq "invalid_key" key) (not (is_empty key)) e
          valid ← rewrap (λ _. hard_dq "invalid_index_entry" key) (admit e)
          resolved ← raise_if_none os_error (files.resolve value)
          kept ← raise_unless (hard_dq "path_traversal" key) (is_under files.root resolved) e
          path ← entry_path key e
          done (store key e entries, e))

    -- for chunk in iter(lambda: f.read(8192), b""), with fuel
    unfoldable pub read_chunks : ℕ → files.Hash → List ℕ → Option files.Hash
    read_chunks zero h data_ = none
    read_chunks (suc fuel) h data_ =
        let rest = read_chunks fuel (files.update h (take 8192 data_)) (drop 8192 data_) in
        if is_empty (take 8192 data_) then some h else rest

    -- _compute_record_hash, out of fuel nowhere
    unfoldable pub compute_record_hash : List ℕ → Result Codes
    compute_record_hash data_ = do
      h ← raise_if_none out_of_fuel (read_chunks (suc (length data_)) files.start data_)
      done (codes "sha256:" ++ files.hexdigest h)

    unfoldable pub verify_record : Codes → IndexEntry M → RecordFile → Result (IndexEntry M)
    verify_record key e absent = raised (hard_dq "missing_record" key)
    verify_record key e unreadable = raised (hard_dq "record_unreadable" key)
    verify_record key e not_a_file = raised (hard_dq "record_not_file" key)
    verify_record key e (bytes data_) = do
      actual_hash ← compute_record_hash data_
      raise_unless (hard_dq "hash_mismatch" key) (same_codes (lower actual_hash) (lower e.hash)) e

    abbrev pub key_found : Codes → Entries M → Option (IndexEntry M)
    key_found key entries = if is_empty (strip key) then none else get_item key entries

    -- StoreIndex.lookup
    unfoldable pub lookup : Entries M → Codes → (verify : Bool) → Result (IndexEntry M)
    lookup entries key verify = do
      e ← raise_if_none (lookup_error "key_not_found" key []) (key_found key entries)
      path ← entry_path key e
      if verify then verify_record key e (files.record_at path) else done e
