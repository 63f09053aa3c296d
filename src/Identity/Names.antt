-- ===== src/Identity/Names.antt =====
-- The texts of a test's identity: the canonical id cut at its colons, a normalized file name, and
-- the texts that a list holds twice (identity.py, _normalize_source_ref of p1a_io.py).
use harness_auto_test_eviden.Prelude.{
  ℕ, Bool, false, ◌&&◌, ◌||◌, Option, none, some, List, [], ◌∷◌, ◌++◌, map, ◌==◌, any,
  if◌then◌else◌,
}
use harness_auto_test_eviden.CodePoints.{Codes, codes, same_codes, starts_with}

abbrev pub colon : ℕ
colon = 58

-- x or y, where x is a text that may be missing
abbrev pub or_codes : Option Codes → Codes → Codes
or_codes none d = d
or_codes (some []) d = d
or_codes (some (c ∷ cs)) d = c ∷ cs

abbrev pub has_colon : Codes → Bool
has_colon s = any (λ c. c == colon) s

-- The text up to the first colon, and the text after it.
unfoldable pub cut_colon : Codes → Codes × Codes
cut_colon [] = ([], [])
cut_colon (c ∷ cs) =
    let (head, tail) = cut_colon cs in if c == colon then ([], cs) else (c ∷ head, tail)

-- The framework and the remainder of a canonical id: s.split(":", 1) if ":" in s else ("", s)
unfoldable pub split_once : Codes → Codes × Codes
split_once s = if has_colon s then cut_colon s else ([], s)

abbrev pub put_head : ℕ → List Codes → List Codes
put_head c [] = (c ∷ []) ∷ []
put_head c (p ∷ ps) = (c ∷ p) ∷ ps

-- s.split("::"), from the left
unfoldable pub split_double : Codes → List Codes
split_double [] = [] ∷ []
split_double (c ∷ []) = (c ∷ []) ∷ []
split_double (c ∷ d ∷ cs) =
    let after = split_double cs in
    let later = split_double (d ∷ cs) in
    if c == colon && d == colon then [] ∷ after else put_head c later

abbrev pub parts_of : Codes → List Codes
parts_of [] = []
parts_of (c ∷ cs) = split_double (c ∷ cs)

-- "::".join(parts)
abbrev pub join_double : List Codes → Codes
join_double [] = []
join_double (p ∷ []) = p
join_double (p ∷ q ∷ ps) = p ++ (colon ∷ colon ∷ join_double (q ∷ ps))

abbrev pub first_part : List Codes → Codes
first_part [] = []
first_part (p ∷ ps) = p

abbrev pub classname_of : Codes → List Codes → Codes
classname_of given (p ∷ q ∷ r ∷ ps) = or_codes (some given) q
classname_of given _ = given

abbrev pub name_of : Codes → List Codes → Codes
name_of given [] = given
name_of given (p ∷ []) = or_codes (some given) p
name_of given (p ∷ q ∷ []) = or_codes (some given) q
name_of given (p ∷ q ∷ r ∷ ps) = or_codes (some given) (join_double (r ∷ ps))

abbrev pub slashed : ℕ → ℕ
slashed c = if c == 92 then 47 else c

unfoldable pub normalize_source_ref : Codes → Codes
normalize_source_ref s = if starts_with (codes "fixture:/") s then s else map slashed s

-- f"{framework}:{file}::{classname}::{name}"
abbrev pub print_id : Codes → Codes → Codes → Codes → Codes
print_id framework file classname name =
    framework ++ (colon ∷ (file ++ (colon ∷ colon ∷ (classname ++ (colon ∷ colon ∷ name)))))

abbrev pub holds : Codes → List Codes → Bool
holds s [] = false
holds s (t ∷ ts) = same_codes s t || holds s ts

-- set.add
abbrev pub add_codes : Codes → List Codes → List Codes
add_codes s ts = if holds s ts then ts else s ∷ ts

-- The loop of _duplicates over its variables `seen` and `duplicates`
unfoldable pub scan_values : List Codes → List Codes → List Codes → List Codes
scan_values seen found [] = found
scan_values seen found (v ∷ vs) =
    scan_values (add_codes v seen) (if holds v seen then add_codes v found else found) vs

abbrev pub duplicates : List Codes → List Codes
duplicates values = scan_values [] [] values
