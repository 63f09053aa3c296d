-- ===== src/Indexes/Lookups.antt =====
-- What a verified lookup has checked (StoreIndex.lookup in indexes.py).
use harness_auto_test_eviden.Prelude.{
  ℕ, Bool, true, false, none, some, List, ◌≡◌, refl, sym, ap, ◌∙◌, subst, if◌then◌else◌, is_empty,
}
use harness_auto_test_eviden.CodePoints.{Codes, same_codes, same_codes_iff, strip}
use harness_auto_test_eviden.Indexes.{
  IndexEntry, Json, Files, Entries, RecordFile, absent, unreadable, not_a_file, bytes, done,
  raise_if_none, get_item, entry_path, hex_of, lower, compute_record_hash, verify_record, key_found,
  lookup,
}
use harness_auto_test_eviden.Indexes.Sound.{
  bind_done, unless_done, none_done, IsEntry, IsEntry-entry_path, entry_path-IsEntry,
}
use harness_auto_test_eviden.Indexes.Chunks.{IsStreaming, chunks-end}

module _ {M : Type 0} (json : Json M) (files : Files) where
  -- An entry whose record is a file in the store with the digest that the entry says.
  pub record IsVerified (entries : Entries M) (key : Codes) (e : IndexEntry M) : Type 0 where
    pub stored : get_item key entries ≡ some e
    pub sound : IsEntry json files key e
    pub contents : List ℕ
    pub is_file : files.record_at sound.path ≡ bytes contents
    pub matches : lower (hex_of json files contents) ≡ lower e.hash

  module _ (streams : IsStreaming files) where
    verified :
        (key : Codes) (e a : IndexEntry M) (r : RecordFile)
        → verify_record json files key e r ≡ done a
        → (contents : List ℕ) × (r ≡ bytes contents)
          × (lower (hex_of json files contents) ≡ lower e.hash)
          × (e ≡ a)
    unfolding verify_record
    verified key e a absent h = absurd (cc (h))
    verified key e a unreadable h = absurd (cc (h))
    verified key e a not_a_file h = absurd (cc (h))
    verified key e a (bytes xs) h =
        let (actual, hashed, h) = bind_done (compute_record_hash json files xs) _ h in
        let (same, q) = unless_done _ (same_codes (lower actual) (lower e.hash)) e h in
        let is_hash : actual ≡ hex_of json files xs =
          cc (hashed, chunks-end json files streams xs) in
        (
          xs,
          refl,
          ap lower (sym is_hash) ∙ (same_codes_iff (lower actual) (lower e.hash)).0 same,
          q,
        )

    found_stored :
        (key : Codes) (entries : Entries M) (b : Bool) (e : IndexEntry M)
        → (if b then none else get_item key entries) ≡ some e
        → get_item key entries ≡ some e
    found_stored key entries true e h = absurd (cc (h))
    found_stored key entries false e h = h

    -- Where hashlib streams, a lookup that verifies and returns an entry found it under the key, and
    -- its record is a file inside the store whose bytes have the digest of the entry.
    pub lookup-IsVerified :
        (entries : Entries M) (key : Codes) (e : IndexEntry M)
        → lookup json files entries key true ≡ done e
        → IsVerified entries key e
    unfolding lookup
    lookup-IsVerified entries key e h =
        let (a, at_key, h) = bind_done (raise_if_none _ (key_found json files key entries)) _ h in
        let stored = found_stored key entries (is_empty (strip key)) a (none_done _ _ at_key) in
        let (path, located, h) = bind_done (entry_path json files key a) _ h in
        let sound = entry_path-IsEntry json files key a located in
        let same_path : path ≡ sound.path =
          cc (located, IsEntry-entry_path json files key a sound) in
        let (contents, read, matches, same) = verified key a e (files.record_at path) h in
        subst (IsVerified entries key) same (record {
          stored = stored;
          sound = sound;
          contents = contents;
          is_file = ap files.record_at (sym same_path) ∙ read;
          matches = matches;
        })
