-- ===== src/CodePoints/Lines.antt =====
-- str.strip, the lines of a text file, and the text that is written for a list of lines.
use harness_auto_test_eviden.Prelude.{
  ℕ, Bool, true, false, ◌&&◌, ◌||◌, List, [], ◌∷◌, ◌++◌, ◌≡◌, refl, ap, ◌==◌, leb, arith, is_empty,
  if◌then◌else◌, All, ◌∙◌,
}
use harness_auto_test_eviden.CodePoints.Order.{Codes}

abbrev pub newline : ℕ
newline = 10

abbrev pub return : ℕ
return = 13

abbrev between : ℕ → ℕ → ℕ → Bool
between a b c = leb a c && leb c b

-- str.isspace of one character
unfoldable pub is_space : ℕ → Bool
is_space c =
    between 9 13 c
    || (between 28 32 c
        || (c == 133
            || (c == 160
                || (c == 5760
                    || (between 8192 8202 c
                        || (between 8232 8233 c || (c == 8239 || (c == 8287 || c == 12288))))))))

unfoldable pub strip_start : Codes → Codes
strip_start [] = []
strip_start (c ∷ cs) = let rest = strip_start cs in if is_space c then rest else c ∷ cs

unfoldable pub strip_end : Codes → Codes
strip_end [] = []
strip_end (c ∷ cs) = let rest = strip_end cs in if is_empty rest && is_space c then [] else c ∷ rest

unfoldable pub strip : Codes → Codes
strip s = strip_end (strip_start s)

-- A text file is read with universal newlines; `after` says that a return came just before.
unfoldable pub universal : Bool → Codes → Codes
universal after [] = []
universal after (c ∷ cs) =
    let rest = universal false cs in
    let returned = universal true cs in
    if c == return then newline ∷ returned else if c == newline && after then rest else c ∷ rest

abbrev pub put_first : ℕ → List Codes → List Codes
put_first c [] = (c ∷ []) ∷ []
put_first c (l ∷ ls) = (c ∷ l) ∷ ls

unfoldable pub cut_lines : Codes → List Codes
cut_lines [] = []
cut_lines (c ∷ cs) = let rest = cut_lines cs in if c == newline then [] ∷ rest else put_first c rest

-- for line in f
unfoldable pub file_lines : Codes → List Codes
file_lines s = cut_lines (universal false s)

-- "\n".join(lines) + "\n" if lines else ""
unfoldable pub print_lines : List Codes → Codes
print_lines [] = []
print_lines (l ∷ ls) = let rest = print_lines ls in l ++ (newline ∷ rest)

abbrev pub is_break : ℕ → Bool
is_break c = c == newline || c == return

abbrev pub IsOneLine : Codes → Type 0
IsOneLine = All (λ c. is_break c ≡ false)

universal-append :
    (l rest : Codes)
    → IsOneLine l
    → universal false (l ++ (newline ∷ rest)) ≡ l ++ (newline ∷ universal false rest)
unfolding universal
universal-append [] rest h = refl
universal-append (c ∷ cs) rest (h, k) = ground (arith, universal-append cs rest k)

cut_lines-append :
    (l rest : Codes) → IsOneLine l → cut_lines (l ++ (newline ∷ rest)) ≡ l ∷ cut_lines rest
unfolding cut_lines
cut_lines-append [] rest h = refl
cut_lines-append (c ∷ cs) rest (h, k) = ground (arith, cut_lines-append cs rest k)

-- The lines of a file are those that were printed.
pub file_lines-print_lines : (ls : List Codes) → All IsOneLine ls → file_lines (print_lines ls) ≡ ls
unfolding file_lines print_lines universal cut_lines
file_lines-print_lines [] h = refl
file_lines-print_lines (l ∷ ls) (h, k) =
    ap cut_lines (universal-append l (print_lines ls) h)
    ∙ cut_lines-append l (universal false (print_lines ls)) h
    ∙ ap (◌∷◌ l) (file_lines-print_lines ls k)

strip_end-visible :
    (a : ℕ) (cs : Codes) → is_space a ≡ false → strip_end (a ∷ cs) ≡ a ∷ strip_end cs
unfolding strip_end
strip_end-visible a cs h = ground arith

strip_end_last :
    (z : ℕ) (body : Codes) → is_space z ≡ false → strip_end (body ++ (z ∷ [])) ≡ body ++ (z ∷ [])
unfolding strip_end
strip_end_last z [] k = ground arith
strip_end_last z (c ∷ []) k = ground (arith, strip_end_last z [] k)
strip_end_last z (c ∷ d ∷ cs) k = ground (arith, strip_end_last z (d ∷ cs) k)

-- A text that starts and ends with visible characters is its own strip.
pub strip_visible :
    (a z : ℕ) (body : Codes)
    → is_space a ≡ false
    → is_space z ≡ false
    → strip (a ∷ (body ++ (z ∷ []))) ≡ a ∷ (body ++ (z ∷ []))
unfolding strip strip_start strip_end
strip_visible a z body h k =
    rw h (strip_end-visible a (body ++ (z ∷ [])) h ∙ ap (◌∷◌ a) (strip_end_last z body k))
