-- ===== src/Identity/Cuts.antt =====
-- How a printed id is cut into its parts, and joined from them.
use harness_auto_test_eviden.Prelude.{
  ℕ, Bool, true, false, not, ◌&&◌, List, [], ◌∷◌, ◌++◌, ◌≡◌, refl, ap, ◌∙◌, ◌==◌, is_empty,
  Bool-cases, or_false, and_true, ==_iff, inl, inr, arith,
}
use harness_auto_test_eviden.CodePoints.{Codes}
use harness_auto_test_eviden.Identity.{
  colon, has_colon, cut_colon, split_once, put_head, split_double, parts_of, join_double,
}

false_of_not : (b : Bool) → not b ≡ true → b ≡ false
false_of_not b h = ground arith

cut_colon-append : (s t : Codes) → has_colon s ≡ false → cut_colon (s ++ (colon ∷ t)) ≡ (s, t)
unfolding cut_colon
cut_colon-append [] t h = refl
cut_colon-append (c ∷ cs) t h =
    let (a, b) = or_false (c == colon) (has_colon cs) h in rw (a, cut_colon-append cs t b) refl

has_colon-append : (s t : Codes) → has_colon (s ++ (colon ∷ t)) ≡ true
has_colon-append [] t = refl
has_colon-append (c ∷ cs) t = ground (arith, has_colon-append cs t)

pub split_once-append : (s t : Codes) → has_colon s ≡ false → split_once (s ++ (colon ∷ t)) ≡ (s, t)
unfolding split_once
split_once-append s t h = rw (has_colon-append s t) (cut_colon-append s t h)

-- A part that the separators around it delimit: it has none and does not end in a colon.
abbrev pub is_part : Codes → Bool
is_part [] = true
is_part (c ∷ []) = not (c == colon)
is_part (c ∷ d ∷ cs) = not (c == colon && d == colon) && is_part (d ∷ cs)

split_double-append :
    (s t : Codes) → is_part s ≡ true → split_double (s ++ (colon ∷ colon ∷ t)) ≡ s ∷ split_double t
unfolding split_double
split_double-append [] t h = refl
split_double-append (c ∷ []) t h = rw (false_of_not (c == colon) h) refl
split_double-append (c ∷ d ∷ cs) t h =
    let (a, b) = and_true (not (c == colon && d == colon)) (is_part (d ∷ cs)) h in
    rw (false_of_not (c == colon && d == colon) a)
      (ap (put_head c) (split_double-append (d ∷ cs) t b))

-- The parts of a text are some, and joined they are the text.
pub split_double_some : (s : Codes) → (p : Codes) × (ps : List Codes) × (split_double s ≡ p ∷ ps)
unfolding split_double
split_double_some [] = ([], [], refl)
split_double_some (c ∷ []) = (c ∷ [], [], refl)
split_double_some (c ∷ d ∷ cs) =
    let (p, ps, e) = split_double_some (d ∷ cs) in
    elim (Bool-cases (c == colon && d == colon)) [
      | inl h ↦ ([], split_double cs, rw h refl)
      | inr h ↦ (c ∷ p, ps, rw (h, e) refl)
    ]

join-put_head :
    (c : ℕ) (ps : List Codes)
    → is_empty ps ≡ false
    → join_double (put_head c ps) ≡ c ∷ join_double ps
join-put_head c [] h = absurd (cc (h))
join-put_head c (p ∷ []) h = refl
join-put_head c (p ∷ q ∷ ps) h = refl

split_double_inhabited : (s : Codes) → is_empty (split_double s) ≡ false
split_double_inhabited s = let (p, ps, e) = split_double_some s in rw e refl

pub join-split_double : (s : Codes) → join_double (split_double s) ≡ s
unfolding split_double
join-split_double [] = refl
join-split_double (c ∷ []) = refl
join-split_double (c ∷ d ∷ cs) = elim (Bool-cases (c == colon && d == colon)) [
  | inl h ↦ rw h (double (split_double cs) (split_double_inhabited cs) (join-split_double cs) h)
  | inr h ↦ rw h (
      join-put_head c (split_double (d ∷ cs)) (split_double_inhabited (d ∷ cs))
      ∙ ap (◌∷◌ c) (join-split_double (d ∷ cs)))
]
  where
    double :
        (ps : List Codes)
        → is_empty ps ≡ false
        → join_double ps ≡ cs
        → (c == colon && d == colon) ≡ true
        → join_double ([] ∷ ps) ≡ c ∷ d ∷ cs
    double [] h q e = absurd (cc (h))
    double (p ∷ ps) h q e =
        let (a, b) = and_true (c == colon) (d == colon) e in
        cc (q, (==_iff c colon).0 a, (==_iff d colon).0 b)

parts_of-append : (s t : Codes) (c : ℕ) → parts_of (s ++ (c ∷ t)) ≡ split_double (s ++ (c ∷ t))
parts_of-append [] t c = refl
parts_of-append (x ∷ s) t c = refl

-- A printed id is cut into the parts that it was printed from.
pub parts_of-print_id :
    (file classname name : Codes)
    → is_part file ≡ true
    → is_part classname ≡ true
    → parts_of (file ++ (colon ∷ colon ∷ (classname ++ (colon ∷ colon ∷ name))))
      ≡ file ∷ classname ∷ split_double name
parts_of-print_id file classname name h k =
    parts_of-append file (colon ∷ (classname ++ (colon ∷ colon ∷ name))) colon
    ∙ split_double-append file (classname ++ (colon ∷ colon ∷ name)) h
    ∙ ap (◌∷◌ file) (split_double-append classname name k)
