-- ===== src/Retries/Sets.antt =====
-- Sets of numbers as ascending lists (sorted({…}) in retry_aggregation.py): what they hold, and
-- that a set whose size reaches its largest member has no gap.
use harness_auto_test_eviden.Prelude.{
  ℕ, suc, ◌+◌, ◌≤◌, Bool, true, false, List, [], ◌∷◌, ◌≡◌, refl, ◌∙◌, ◌⊎◌, inl, inr, ◌==◌, ==_iff,
  ltb, length, if◌then◌else◌, Bool-cases, Occurs, arith,
}
use harness_auto_test_eviden.Retries.{add_sorted, sorted_set, last_or}

-- Ascending, from `lo` on.
abbrev pub IsAscending : ℕ → List ℕ → Type 0
IsAscending lo [] = Unit
IsAscending lo (n ∷ ns) = (lo ≤ n) × IsAscending (suc n) ns

IsAscending-weaken : (lo lo' : ℕ) (ns : List ℕ) → lo' ≤ lo → IsAscending lo ns → IsAscending lo' ns
IsAscending-weaken lo lo' [] h a = tt
IsAscending-weaken lo lo' (n ∷ ns) h (b, c) = (omega (arith, h, b), c)

add_sorted-IsAscending :
    (lo n : ℕ) (ns : List ℕ) → lo ≤ n → IsAscending lo ns → IsAscending lo (add_sorted n ns)
unfolding add_sorted
add_sorted-IsAscending lo n [] h a = (h, tt)
add_sorted-IsAscending lo n (m ∷ ms) h (b, c) = elim (Bool-cases (ltb n m)) [
  | inl t ↦ rw t (h, (ltb_lt n m t, c))
  | inr f ↦ elim (Bool-cases (n == m)) [
    | inl e ↦ rw (f, e) (b, c)
    | inr d ↦ rw (f, d) (b, add_sorted-IsAscending (suc m) n ms (past n m f d) c)
  ]
]
  where
    ltb_lt : (n m : ℕ) → ltb n m ≡ true → suc n ≤ m
    ltb_lt n m t = ground arith

    past : (n m : ℕ) → ltb n m ≡ false → (n == m) ≡ false → suc m ≤ n
    past n m f d = ground arith

pub sorted_set-IsAscending : (ns : List ℕ) → IsAscending 0 (sorted_set ns)
unfolding sorted_set
sorted_set-IsAscending [] = tt
sorted_set-IsAscending (n ∷ ns) =
    add_sorted-IsAscending 0 n (sorted_set ns) (omega arith) (sorted_set-IsAscending ns)

-- The set holds what was put in, and nothing else.
pub add_sorted-Occurs : (x n : ℕ) (ns : List ℕ) → (x ≡ n) ⊎ Occurs x ns → Occurs x (add_sorted n ns)
unfolding add_sorted
add_sorted-Occurs x n [] h = h
add_sorted-Occurs x n (m ∷ ms) h = elim (Bool-cases (ltb n m)) [
  | inl t ↦ rw t h
  | inr f ↦ elim (Bool-cases (n == m)) [
    | inl e ↦ rw (f, e) (same (==_iff n m).0 e h)
    | inr d ↦ rw (f, d) (later (add_sorted-Occurs x n ms) h)
  ]
]
  where
    same :
        ((n == m) ≡ true → n ≡ m)
        → (n == m) ≡ true
        → (x ≡ n) ⊎ Occurs x (m ∷ ms)
        → Occurs x (m ∷ ms)
    same g e (inl q) = inl (q ∙ g e)
    same g e (inr o) = o

    later :
        ((x ≡ n) ⊎ Occurs x ms → Occurs x (add_sorted n ms))
        → (x ≡ n) ⊎ Occurs x (m ∷ ms)
        → (x ≡ m) ⊎ Occurs x (add_sorted n ms)
    later r (inl q) = inr (r (inl q))
    later r (inr (inl q)) = inl q
    later r (inr (inr o)) = inr (r (inr o))

pub sorted_set-Occurs : (x : ℕ) (ns : List ℕ) → Occurs x ns → Occurs x (sorted_set ns)
unfolding sorted_set
sorted_set-Occurs x (n ∷ ns) (inl q) = add_sorted-Occurs x n _ (inl q)
sorted_set-Occurs x (n ∷ ns) (inr o) = add_sorted-Occurs x n _ (inr (sorted_set-Occurs x ns o))
sorted_set-Occurs x [] h = absurd h

pub Occurs-add_sorted : (x n : ℕ) (ns : List ℕ) → Occurs x (add_sorted n ns) → (x ≡ n) ⊎ Occurs x ns
unfolding add_sorted
Occurs-add_sorted x n [] h = h
Occurs-add_sorted x n (m ∷ ms) h = by_tests (ltb n m) (n == m) (Occurs-add_sorted x n ms) h
  where
    by_tests :
        (a b : Bool)
        → (Occurs x (add_sorted n ms) → (x ≡ n) ⊎ Occurs x ms)
        → Occurs x (if a then n ∷ m ∷ ms else if b then m ∷ ms else m ∷ add_sorted n ms)
        → (x ≡ n) ⊎ Occurs x (m ∷ ms)
    by_tests true b r h = h
    by_tests false true r h = inr h
    by_tests false false r (inl q) = inr (inl q)
    by_tests false false r (inr o) = elim (r o) [ inl q ↦ inl q | inr o' ↦ inr (inr o') ]

pub Occurs-sorted_set : (x : ℕ) (ns : List ℕ) → Occurs x (sorted_set ns) → Occurs x ns
unfolding sorted_set
Occurs-sorted_set x [] h = h
Occurs-sorted_set x (n ∷ ns) h = elim (Occurs-add_sorted x n (sorted_set ns) h) [
  | inl q ↦ inl q
  | inr o ↦ inr (Occurs-sorted_set x ns o)
]

pub last-Occurs : (n : ℕ) (ns : List ℕ) → Occurs (last_or n ns) (n ∷ ns)
last-Occurs n [] = inl refl
last-Occurs n (m ∷ ns) = inr (last-Occurs m ns)

pub length-last :
    (lo n : ℕ) (ns : List ℕ) → IsAscending lo (n ∷ ns) → length (n ∷ ns) + lo ≤ suc (last_or n ns)
length-last lo n [] (b, c) = omega (arith, b)
length-last lo n (m ∷ ns) (b, c) = omega (arith, length-last (suc n) m ns c, b)

-- An ascending list that is as long as its last member allows has every number up to it.
pub full-Occurs :
    (lo n : ℕ) (ns : List ℕ)
    → IsAscending lo (n ∷ ns)
    → suc (last_or n ns) ≤ length (n ∷ ns) + lo
    → (r : ℕ) → lo ≤ r
    → r ≤ last_or n ns
    → Occurs r (n ∷ ns)
full-Occurs lo n [] (b, c) h r l u = inl (omega (arith, b, h, l, u))
full-Occurs lo n (m ∷ ns) (b, c) h r l u = elim (Bool-cases (r == n)) [
  | inl e ↦ inl ((==_iff r n).0 e)
  | inr d ↦ inr (
      full-Occurs (suc n) m ns c (omega (arith, h, b, length-last (suc n) m ns c)) r
        (later (omega (arith, h, length-last (suc n) m ns c)) d) u)
]
  where
    later : n ≤ lo → (r == n) ≡ false → suc n ≤ r
    later t d = ground arith

-- An ascending list of at least `hi` numbers, all below `hi`, has every number below `hi`.
pub full_below :
    (hi : ℕ) (ns : List ℕ)
    → IsAscending 0 ns
    → ((n : ℕ) → Occurs n ns → suc n ≤ hi)
    → hi ≤ length ns
    → (r : ℕ) → suc r ≤ hi
    → Occurs r ns
full_below hi [] a b h r u = absurd (omega (arith, h, u))
full_below hi (n ∷ ns) a b h r u =
    let top = b (last_or n ns) (last-Occurs n ns) in
    full-Occurs 0 n ns a (omega (arith, h, top)) r (omega arith)
      (omega (arith, length-last 0 n ns a, h, u))

pub Occurs-last :
    (lo n : ℕ) (ns : List ℕ)
    → IsAscending lo (n ∷ ns)
    → (r : ℕ) → Occurs r (n ∷ ns)
    → r ≤ last_or n ns
Occurs-last lo n [] a r (inl q) = omega (arith, q)
Occurs-last lo n [] a r (inr o) = absurd o
Occurs-last lo n (m ∷ ns) (b, c) r (inl q) = omega (arith, q, length-last (suc n) m ns c)
Occurs-last lo n (m ∷ ns) (b, c) r (inr o) = Occurs-last (suc n) m ns c r o
