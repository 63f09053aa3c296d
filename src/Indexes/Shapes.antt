-- ===== src/Indexes/Shapes.antt =====
-- The values that the indexes of src/hate/store/indexes.py work on: entries, JSON fields, errors,
-- digests, paths, and dicts in insertion order.
use harness_auto_test_eviden.Prelude.{
  ℕ, ◌+◌, String, Bool, true, false, not, ◌&&◌, ◌||◌, Option, none, some, List, [], ◌∷◌, ◌==◌, leb,
  all, length, is_empty, if◌then◌else◌, take, drop,
}
use harness_auto_test_eviden.CodePoints.{Codes, codes, same_codes, before, strip}

-- A field of a JSON object, as from_jsonl looks at it.
pub data Field (M : Type 0) : Type 0 where
  text : Codes → Field M
  object : M → Field M
  other : Field M

pub record Fields (M : Type 0) : Type 0 where
  pub key : Option (Field M)
  pub value : Option (Field M)
  pub hash : Option (Field M)
  pub metadata : Option (Field M)

pub data Parsed (M : Type 0) : Type 0 where
  not_object : Parsed M
  fields : Fields M → Parsed M

pub record IndexEntry (M : Type 0) : Type 0 where
  pub key : Codes
  pub value : Codes
  pub hash : Codes
  pub metadata : M

-- `loads` is none where strict_json_loads raises; `is_encodable` says that json.dumps and UTF-8
-- take the metadata.
pub record Json (M : Type 0) : Type 0 where
  pub blank : M
  pub is_encodable : M → Bool
  pub dumps : IndexEntry M → Codes
  pub loads : Codes → Option (Parsed M)

abbrev pub PathParts : Type 0
PathParts = List Codes

pub data RecordFile : Type 0 where
  absent unreadable not_a_file : RecordFile
  bytes : List ℕ → RecordFile

-- `resolve` is (root / value).resolve(), or none where it raises; `start`, `update` and `hexdigest`
-- are those of hashlib.sha256; `encode` is the UTF-8 of a text.
pub record Files : Type 1 where
  pub root : PathParts
  pub resolve : Codes → Option PathParts
  pub record_at : PathParts → RecordFile
  pub Hash : Type 0
  pub start : Hash
  pub update : Hash → List ℕ → Hash
  pub hexdigest : Hash → Codes
  pub encode : Codes → List ℕ

-- StoreIndex.entries
abbrev pub Entries : Type 0 → Type 0
Entries M = List (Codes × IndexEntry M)

-- IndexLookupError and HardDQFinding, and what is raised as it comes.
pub data IndexError : Type 0 where
  lookup_error : (issue : String) (key : Codes) (line_numbers : List ℕ) → IndexError
  hard_dq : (issue : String) (key : Codes) → IndexError
  value_error os_error out_of_fuel : IndexError
  write_error : (published : Bool) → IndexError

pub data Result {ℓ} (A : Type ℓ) : Type ℓ where
  done : A → Result A
  raised : IndexError → Result A

infixl 5 ◌>>=◌
abbrev pub ◌>>=◌ {ℓ} : {A B : Type ℓ} → Result A → (A → Result B) → Result B
done a >>= f = f a
raised e >>= f = raised e

-- str.encode("utf-8") refuses surrogates.
unfoldable pub is_utf8 : Codes → Bool
is_utf8 s = all (λ c. not (leb 55296 c && leb c 57343)) s

abbrev pub is_hex : ℕ → Bool
is_hex c = (leb 48 c && leb c 57) || ((leb 65 c && leb c 70) || (leb 97 c && leb c 102))

-- re.fullmatch(r"sha256:[a-fA-F0-9]{64}", …)
unfoldable pub is_digest : Codes → Bool
is_digest s =
    same_codes (take 7 s) (codes "sha256:") && (all is_hex (drop 7 s) && length (drop 7 s) == 64)

abbrev pub is_usable : Codes → Bool
is_usable s = not (is_empty (strip s)) && is_utf8 s

-- str.lower, on the ASCII texts that it is applied to
abbrev pub lower_code : ℕ → ℕ
lower_code c = if leb 65 c && leb c 90 then c + 32 else c

unfoldable pub lower : Codes → Codes
lower [] = []
lower (c ∷ cs) = lower_code c ∷ lower cs

-- path != root and path.is_relative_to(root)
unfoldable pub is_strictly_under : PathParts → PathParts → Bool
is_strictly_under [] path = not (is_empty path)
is_strictly_under (p ∷ ps) [] = false
is_strictly_under (p ∷ ps) (q ∷ qs) = same_codes p q && is_strictly_under ps qs

-- path.relative_to(root) does not raise.
unfoldable pub is_under : PathParts → PathParts → Bool
is_under [] path = true
is_under (p ∷ ps) [] = false
is_under (p ∷ ps) (q ∷ qs) = same_codes p q && is_under ps qs

module _ {ℓ} {V : Type ℓ} where
  -- d.get(k) and d[k] = v of a dict in insertion order
  unfoldable pub get_item : Codes → List (Codes × V) → Option V
  get_item k [] = none
  get_item k ((j, v) ∷ d) = let rest = get_item k d in if same_codes k j then some v else rest

  unfoldable pub store : Codes → V → List (Codes × V) → List (Codes × V)
  store k v [] = (k, v) ∷ []
  store k v ((j, w) ∷ d) =
      let rest = store k v d in if same_codes k j then (j, v) ∷ d else (j, w) ∷ rest

  unfoldable pub insert_sorted : Codes → V → List (Codes × V) → List (Codes × V)
  insert_sorted k v [] = (k, v) ∷ []
  insert_sorted k v ((j, w) ∷ d) =
      let rest = insert_sorted k v d in if before j k then (j, w) ∷ rest else (k, v) ∷ (j, w) ∷ d

  -- sorted(d.items(), key=lambda x: x[0])
  unfoldable pub sort_items : List (Codes × V) → List (Codes × V)
  sort_items [] = []
  sort_items ((k, v) ∷ d) = insert_sorted k v (sort_items d)

-- index_path: `broken` is a file that cannot be opened or is no UTF-8.
pub data IndexFile : Type 0 where
  missing broken : IndexFile
  content : Codes → IndexFile

-- What atomic_write_bytes comes to: it returns, or it raises AtomicWriteError, whose `published`
-- says whether the new file has taken the place of the old one.
pub data WriteOutcome : Type 0 where
  written : WriteOutcome
  write_failed : (published : Bool) → WriteOutcome

abbrev pub raise_unless {ℓ} : {A : Type ℓ} → IndexError → Bool → A → Result A
raise_unless e b a = if b then done a else raised e

abbrev pub raise_if_none {ℓ} : {A : Type ℓ} → IndexError → Option A → Result A
raise_if_none e none = raised e
raise_if_none e (some a) = done a

-- except … as e: raise wrap(e)
abbrev pub rewrap {ℓ} : {A : Type ℓ} → (IndexError → IndexError) → Result A → Result A
rewrap wrap (done a) = done a
rewrap wrap (raised e) = raised (wrap e)

-- Strings that are not empty, of a parsed object
abbrev pub text_field : {M : Type 0} → Option (Field M) → Result Codes
text_field (some (text s)) = raise_unless value_error (not (is_empty s)) s
text_field _ = raised value_error

abbrev pub object_field : {M : Type 0} → M → Option (Field M) → Result M
object_field blank none = done blank
object_field blank (some (object m)) = done m
object_field blank _ = raised value_error

abbrev pub new_entry : {M : Type 0} → Codes → Codes → Codes → M → IndexEntry M
new_entry key value hash metadata = record {
  key = key;
  value = value;
  hash = hash;
  metadata = metadata;
}

-- if entry.key in loaded: raise
abbrev pub raise_if_seen : {M : Type 0} → Option ℕ → IndexEntry M → ℕ → Result (IndexEntry M)
raise_if_seen none e n = done e
raise_if_seen (some first_line) e n =
    raised (lookup_error "duplicate_index_key" e.key (first_line ∷ n ∷ []))

-- self.entries = loaded is the last statement of load.
abbrev pub settled : {M : Type 0} → Entries M → Result (Entries M) → Entries M × Option IndexError
settled entries (done loaded) = (loaded, none)
settled entries (raised e) = (entries, some e)
