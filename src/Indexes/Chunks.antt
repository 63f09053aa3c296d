-- ===== src/Indexes/Chunks.antt =====
-- The loop that hashes a record in chunks of 8192 bytes (_compute_record_hash in indexes.py).
use harness_auto_test_eviden.Prelude.{
  ℕ, zero, suc, ◌<◌, some, List, [], ◌∷◌, ◌++◌, ◌≡◌, refl, sym, ap, ◌∙◌, length, take, drop,
  take-append-drop, length-drop, arith,
}
use harness_auto_test_eviden.Indexes.{Json, Files, done, read_chunks, compute_record_hash, hex_of}

-- hashlib: repeated calls of update are one call with the concatenation.
pub record IsStreaming (files : Files) : Type 0 where
  pub nothing : (h : files.Hash) → files.update h [] ≡ h
  pub joined :
      (h : files.Hash) (a b : List ℕ) → files.update (files.update h a) b ≡ files.update h (a ++ b)

module _ {M : Type 0} (json : Json M) (files : Files) (streams : IsStreaming files) where
  read_chunks_lem :
      (fuel : ℕ) (h : files.Hash) (xs : List ℕ)
      → length xs < fuel
      → read_chunks json files fuel h xs ≡ some (files.update h xs)
  unfolding read_chunks
  read_chunks_lem zero h xs l = absurd (omega (arith, l))
  read_chunks_lem (suc fuel) h [] l = ap some (sym (streams.nothing h))
  read_chunks_lem (suc fuel) h (x ∷ xs) l =
      read_chunks_lem fuel (files.update h (take 8192 (x ∷ xs))) (drop 8192 (x ∷ xs)) shorter
      ∙ ap some (
          streams.joined h (take 8192 (x ∷ xs)) (drop 8192 (x ∷ xs))
          ∙ ap (files.update h) (take-append-drop 8192 (x ∷ xs)))
    where
      shorter : length (drop 8192 (x ∷ xs)) < fuel
      shorter = omega (arith, length-drop 8191 xs, l)

  -- Where hashlib streams, the loop over the chunks of a record ends, whatever its size, and gives
  -- the digest of all its bytes.
  pub chunks-end : (xs : List ℕ) → compute_record_hash json files xs ≡ done (hex_of json files xs)
  unfolding compute_record_hash
  chunks-end xs = rw (read_chunks_lem (suc (length xs)) files.start xs (omega arith)) refl
