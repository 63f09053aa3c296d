-- ===== src/Indexes/Tests.antt =====
-- An index of two runs, with a small codec and a checksum in place of JSON and SHA-256.
use mathlib.Core.List.{append-nil, append_assoc}
use harness_auto_test_eviden.Prelude.{
  ℕ, zero, suc, ◌+◌, ◌%◌, Bool, true, false, not, ◌||◌, Option, none, some, List, [], ◌∷◌, ◌++◌,
  ◌≡◌, refl, if◌then◌else◌, ◌==◌, select, any→All, subst, length,
}
use harness_auto_test_eviden.CodePoints.{
  Codes, codes, same_codes, strip, strip_start, strip_end, is_space, is_break, universal, cut_lines,
  file_lines,
}
use harness_auto_test_eviden.Indexes.{
  fields, Parsed, text, object, IndexEntry, Json, Files, Entries, written, missing, content, bytes,
  done, new_entry, is_utf8, is_digest, is_strictly_under, is_under, get_item, store, sort_items,
  lower, validate, entry_path, save, load, add_entry, hex_of, compute_record_hash, read_chunks,
  verify_record, lookup, from_jsonl, entry_of, load_line, load_lines, load_entries,
}
use harness_auto_test_eviden.Indexes.Chunks.{IsStreaming, chunks-end}
use harness_auto_test_eviden.Indexes.Sound.{IsEntry, IsIndex}
use harness_auto_test_eviden.Indexes.Reading.{
  entry_count, load-IsIndex, load_counts_lines, add_entry-IsIndex,
}
use harness_auto_test_eviden.Indexes.Lookups.{IsVerified, lookup-IsVerified}
use harness_auto_test_eviden.Indexes.Writing.{IsReadBack, IsReadable, save-load}

abbrev cells : Codes → List Codes
cells [] = [] ∷ []
cells (c ∷ cs) = let rest = cells cs in if c == 44 then [] ∷ rest else put_cell c rest
  where
    put_cell : ℕ → List Codes → List Codes
    put_cell c [] = (c ∷ []) ∷ []
    put_cell c (l ∷ ls) = (c ∷ l) ∷ ls

abbrev three_fields : List Codes → Option (Parsed Unit)
three_fields (k ∷ v ∷ h ∷ []) = some (
    fields (record {
      key = some (text k);
      value = some (text v);
      hash = some (text h);
      metadata = some (object tt);
    }))
three_fields _ = none

abbrev pub json : Json Unit
json = record {
  blank = tt;
  is_encodable = λ _. true;
  dumps = λ e. 123 ∷ ((e.key ++ (44 ∷ (e.value ++ (44 ∷ e.hash)))) ++ (125 ∷ []));
  loads = λ s. three_fields (cells (select (λ c. not (c == 123 || c == 125)) s));
}

abbrev repeated : ℕ → ℕ → Codes
repeated zero c = []
repeated (suc n) c = c ∷ repeated n c

abbrev pub files : Files
files = record {
  root = codes "store" ∷ [];
  resolve = λ value. some (codes "store" ∷ value ∷ []);
  record_at = λ _. bytes (7 ∷ 8 ∷ 9 ∷ []);
  Hash = List ℕ;
  start = [];
  update = λ h xs. h ++ xs;
  hexdigest = λ h. repeated 64 (48 + length h % 10);
  encode = λ s. s;
}

abbrev digest_3 : Codes
digest_3 = codes "sha256:" ++ repeated 64 51

abbrev run_1 : IndexEntry Unit
run_1 = new_entry (codes "run-1") (codes "runs/1") digest_3 tt

abbrev run_2 : IndexEntry Unit
run_2 = new_entry (codes "run-2") (codes "runs/2") digest_3 tt

abbrev pub two_runs : Entries Unit
two_runs = (codes "run-2", run_2) ∷ (codes "run-1", run_1) ∷ []

run_1-IsEntry : IsEntry json files (codes "run-1") run_1
unfolding validate is_utf8 is_digest strip strip_start strip_end is_space same_codes
    is_strictly_under
run_1-IsEntry = record {
  valid = refl;
  keyed = refl;
  path = codes "store" ∷ codes "runs/1" ∷ [];
  resolved = refl;
  inside = refl;
}

run_2-IsEntry : IsEntry json files (codes "run-2") run_2
unfolding validate is_utf8 is_digest strip strip_start strip_end is_space same_codes
    is_strictly_under
run_2-IsEntry = record {
  valid = refl;
  keyed = refl;
  path = codes "store" ∷ codes "runs/2" ∷ [];
  resolved = refl;
  inside = refl;
}

pub two_runs-IsIndex : IsIndex json files two_runs
unfolding get_item same_codes
two_runs-IsIndex = (run_2-IsEntry, refl, (run_1-IsEntry, refl, tt))

files-IsStreaming : IsStreaming files
files-IsStreaming = record { nothing = append-nil; joined = append_assoc }

unwrap : {a b : IndexEntry Unit} → ◌≡◌ {A = Option (IndexEntry Unit)} (some a) (some b) → a ≡ b
unwrap h = cc (h)

run_1-IsReadBack : IsReadBack json files run_1
run_1-IsReadBack = record {
  body = codes "run-1,runs/1," ++ digest_3;
  braces = refl;
  one_line = any→All is_break (json.dumps run_1) refl;
  parsed = refl;
}

run_2-IsReadBack : IsReadBack json files run_2
run_2-IsReadBack = record {
  body = codes "run-2,runs/2," ++ digest_3;
  braces = refl;
  one_line = any→All is_break (json.dumps run_2) refl;
  parsed = refl;
}

pub two_runs-IsReadable : IsReadable json files two_runs
unfolding get_item
two_runs-IsReadable k e h = one_of (same_codes k (codes "run-2")) (same_codes k (codes "run-1")) h
  where
    one_of :
        (a b : Bool)
        → (if a then some run_2 else if b then some run_1 else none) ≡ some e
        → IsReadBack json files e
    one_of true b h = subst (IsReadBack json files) (unwrap h) run_2-IsReadBack
    one_of false true h = subst (IsReadBack json files) (unwrap h) run_1-IsReadBack
    one_of false false h = absurd (cc (h))

chunks-end_example :
    compute_record_hash json files (1 ∷ 2 ∷ []) ≡ done (hex_of json files (1 ∷ 2 ∷ []))
chunks-end_example = chunks-end json files files-IsStreaming (1 ∷ 2 ∷ [])

lookup-IsVerified_example : IsVerified json files two_runs (codes "run-1") run_1
unfolding lookup get_item same_codes strip strip_start strip_end is_space entry_path validate
    is_utf8 is_digest is_strictly_under verify_record compute_record_hash read_chunks lower
lookup-IsVerified_example =
    lookup-IsVerified json files files-IsStreaming two_runs (codes "run-1") run_1 refl

load-IsIndex_example : IsIndex json files (load json files two_runs (content (codes "{run-3"))).0
load-IsIndex_example = load-IsIndex json files two_runs (content (codes "{run-3")) two_runs-IsIndex

abbrev file : Codes
file = json.dumps run_1 ++ (10 ∷ [])

load_counts_lines_example :
    length (load json files [] (content file)).0 ≡ entry_count (file_lines file)
unfolding load load_entries file_lines universal cut_lines load_lines load_line from_jsonl entry_of
    get_item store same_codes strip strip_start strip_end is_space entry_path validate is_utf8
    is_digest is_strictly_under
load_counts_lines_example = load_counts_lines json files [] file refl

add_entry-IsIndex_example :
    IsIndex json files two_runs
    × (get_item (codes "run-2") two_runs ≡ (
        if same_codes (codes "run-2") (codes "run-1")
        then some run_1
        else get_item (codes "run-2") ((codes "run-2", run_2) ∷ [])))
    × (run_1 ≡ new_entry (codes "run-1") (codes "runs/1") digest_3 tt)
unfolding add_entry get_item store same_codes strip strip_start strip_end is_space entry_path
    validate is_utf8 is_digest is_strictly_under is_under
add_entry-IsIndex_example =
    add_entry-IsIndex json files ((codes "run-2", run_2) ∷ []) two_runs (codes "run-1")
      (codes "runs/1") digest_3 none run_1 (codes "run-2") (run_2-IsEntry, refl, tt) refl

save-load_example :
    (s : Codes) × (save json files two_runs missing written
      ≡ (content s, done (hex_of json files (files.encode s))))
    × (load json files [] (content s) ≡ (sort_items two_runs, none))
    × (get_item (codes "run-1") (sort_items two_runs) ≡ get_item (codes "run-1") two_runs)
save-load_example =
    save-load json files two_runs [] missing (codes "run-1") two_runs-IsIndex two_runs-IsReadable
