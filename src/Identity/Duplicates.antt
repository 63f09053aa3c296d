-- ===== src/Identity/Duplicates.antt =====
-- The duplicate ids of the canonical identity index are the normalized ids that two tests share.
use harness_auto_test_eviden.Prelude.{
  ℕ, ◌≤◌, suc, true, false, not, ◌||◌, leb, is_empty, List, [], ◌∷◌, ◌≡◌, refl, sym, ◌∙◌, ap, ◌↔◌,
  map, select, if◌then◌else◌, insert_by, sort_by, arith,
}
use harness_auto_test_eviden.CodePoints.{Codes, same_codes, same_codes_iff, same_codes_refl, before}
use harness_auto_test_eviden.Identity.{
  holds, add_codes, scan_values, duplicates, Digests, TestNode, is_test, normalized_of,
  identity_record, build_canonical_identity_index,
}

-- How often a text stands in a list.
abbrev pub occurrences : Codes → List Codes → ℕ
occurrences s [] = 0
occurrences s (t ∷ ts) = let rest = occurrences s ts in if same_codes s t then suc rest else rest

holds_same : (s t : Codes) (ts : List Codes) → same_codes s t ≡ true → holds s ts ≡ holds t ts
holds_same s t ts h = ap (λ u. holds u ts) ((same_codes_iff s t).0 h)

holds-add_codes :
    (s t : Codes) (ts : List Codes) → holds s (add_codes t ts) ≡ (same_codes s t || holds s ts)
holds-add_codes s t ts = ground (arith, holds_same s t ts)

-- What the loop has found once it ends: what it had found, and what it sees a second time.
holds-scan_values :
    (s : Codes) (seen found vs : List Codes)
    → holds s (scan_values seen found vs)
      ≡ (holds s found || leb (if holds s seen then 1 else 2) (occurrences s vs))
unfolding scan_values
holds-scan_values s seen found [] = ground arith
holds-scan_values s seen found (v ∷ vs) = ground (
  arith,
  holds-scan_values s (add_codes v seen) (if holds v seen then add_codes v found else found) vs,
  holds-add_codes s v seen,
  holds-add_codes s v found,
  holds_same s v seen,
)

holds-insert_by :
    (s t : Codes) (ts : List Codes)
    → holds s (insert_by before t ts) ≡ (same_codes s t || holds s ts)
unfolding insert_by
holds-insert_by s t [] = refl
holds-insert_by s t (u ∷ us) = ground (arith, holds-insert_by s t us)

holds-sort_by : (s : Codes) (ts : List Codes) → holds s (sort_by before ts) ≡ holds s ts
unfolding sort_by
holds-sort_by s [] = refl
holds-sort_by s (t ∷ ts) =
    ground (arith, holds-insert_by s t (sort_by before ts), holds-sort_by s ts)

empty_iff : (ts : List Codes) → (not (is_empty ts) ≡ false) ↔ ((s : Codes) → holds s ts ≡ false)
empty_iff [] = (λ h s. refl, λ h. refl)
empty_iff (t ∷ ts) = (λ h. absurd (cc (h)), λ h. absurd (cc (h t, same_codes_refl t)))

least_two : (n : ℕ) → (leb 2 n ≡ true) ↔ (2 ≤ n)
least_two n = ground arith

at_most_one : (n : ℕ) → (leb 2 n ≡ false) ↔ (n ≤ 1)
at_most_one n = ground arith

module _ {J : Type 0} (digests : Digests J) where
  abbrev pub normalized_ids : List (TestNode J) → List Codes
  normalized_ids nodes = map normalized_of (map (identity_record digests) (select is_test nodes))

  -- The duplicate ids of the index are exactly the normalized ids that stand there twice or more,
  -- and it reports none exactly where every normalized id belongs to one test at most.
  pub duplicates_iff :
      (nodes : List (TestNode J))
      → (let index = build_canonical_identity_index digests nodes in
          ((s : Codes)
            → (holds s index.duplicate_normalized_ids ≡ true)
              ↔ (2 ≤ occurrences s (map normalized_of index.identities)))
          × ((index.has_duplicates ≡ false)
              ↔ ((s : Codes) → occurrences s (map normalized_of index.identities) ≤ 1)))
  unfolding build_canonical_identity_index
  duplicates_iff nodes =
      let ids = normalized_ids nodes in
      let duplicate_ids = sort_by before (duplicates ids) in
      let held : (s : Codes) → holds s duplicate_ids ≡ leb 2 (occurrences s ids) =
        λ s. holds-sort_by s (duplicates ids) ∙ holds-scan_values s [] [] ids in
      (
        λ s. (
          λ h. (least_two (occurrences s ids)).0 (sym (held s) ∙ h),
          λ h. held s ∙ (least_two (occurrences s ids)).1 h,
        ),
        (
          λ h s.
              (at_most_one (occurrences s ids)).0 (sym (held s) ∙ (empty_iff duplicate_ids).0 h s),
          λ h.
              (empty_iff duplicate_ids).1 (λ s. held s ∙ (at_most_one (occurrences s ids)).1 (h s)),
        ),
      )
