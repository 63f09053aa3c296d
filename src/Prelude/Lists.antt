-- ===== src/Prelude/Lists.antt =====
-- Lists measured by native numbers, and the tests and predicates over their members.
use Prim.Native.Nat.{ℕ, suc, ◌+◌, ◌-◌}
use mathlib.Core.Path.{◌≡◌, refl, sym, subst, ap, ◌∙◌}
use mathlib.Core.Logic.{◌⊎◌, inl, inr}
use mathlib.Core.Bool.{Bool, true, false, ◌&&◌, ◌||◌}
use mathlib.Core.List.{List, [], ◌∷◌, ◌++◌, map}
use native.Mathlib.Omega.{arith}
use harness_auto_test_eviden.Prelude.Tests.{if◌then◌else◌, and_true, or_false}

module _ {ℓ} {A : Type ℓ} where
  abbrev pub length : List A → ℕ
  length [] = 0
  length (x ∷ xs) = suc (length xs)

  abbrev pub is_empty : List A → Bool
  is_empty [] = true
  is_empty (x ∷ xs) = false

  -- Python's any(p(x) for x in xs) and all(p(x) for x in xs).
  abbrev pub any : (A → Bool) → List A → Bool
  any p [] = false
  any p (x ∷ xs) = p x || any p xs

  abbrev pub all : (A → Bool) → List A → Bool
  all p [] = true
  all p (x ∷ xs) = p x && all p xs

  -- [x for x in xs if p(x)]
  abbrev pub select : (A → Bool) → List A → List A
  select p [] = []
  select p (x ∷ xs) = let rest = select p xs in if p x then x ∷ rest else rest

  -- Every member has the property.
  abbrev pub All {κ} : (A → Type κ) → List A → Type κ
  All P [] = Unit
  All P (x ∷ xs) = P x × All P xs

  -- xs[:n] and xs[n:]
  abbrev pub take : ℕ → List A → List A
  take (suc n) (x ∷ xs) = x ∷ take n xs
  take _ _ = []

  abbrev pub drop : ℕ → List A → List A
  drop (suc n) (x ∷ xs) = drop n xs
  drop _ xs = xs

  pub take-append-drop : (n : ℕ) (xs : List A) → take n xs ++ drop n xs ≡ xs
  take-append-drop (suc n) (x ∷ xs) = ap (◌∷◌ x) (take-append-drop n xs)
  take-append-drop _ _ = refl

  pub length-drop : (n : ℕ) (xs : List A) → length (drop n xs) ≡ length xs - n
  length-drop (suc n) (x ∷ xs) = omega (arith, length-drop n xs)
  length-drop _ _ = omega arith

  pub all→All : (p : A → Bool) (xs : List A) → all p xs ≡ true → All (λ x. p x ≡ true) xs
  all→All p [] h = tt
  all→All p (x ∷ xs) h = let (a, b) = and_true (p x) (all p xs) h in (a, all→All p xs b)

  pub any→All : (p : A → Bool) (xs : List A) → any p xs ≡ false → All (λ x. p x ≡ false) xs
  any→All p [] h = tt
  any→All p (x ∷ xs) h = let (a, b) = or_false (p x) (any p xs) h in (a, any→All p xs b)

  pub All-map {κ μ} :
      {P : A → Type κ} {Q : A → Type μ} (f : (x : A) → P x → Q x) (xs : List A)
      → All P xs
      → All Q xs
  All-map f [] h = tt
  All-map f (x ∷ xs) h = (f x h.0, All-map f xs h.1)

  pub All-of : {P : A → Type 0} → ((x : A) → P x) → (xs : List A) → All P xs
  All-of f [] = tt
  All-of f (x ∷ xs) = (f x, All-of f xs)

  pub length-append : (xs ys : List A) → length (xs ++ ys) ≡ length xs + length ys
  length-append [] ys = omega arith
  length-append (x ∷ xs) ys = omega (arith, length-append xs ys)

module _ {A : Type 0} where
  abbrev pub Occurs : A → List A → Type 0
  Occurs a [] = ⊥
  Occurs a (x ∷ xs) = (a ≡ x) ⊎ Occurs a xs

  pub All→Occurs : (P : A → Type 0) (xs : List A) → All P xs → (a : A) → Occurs a xs → P a
  All→Occurs P [] h a o = absurd o
  All→Occurs P (x ∷ xs) (p, h) a (inl q) = subst P (sym q) p
  All→Occurs P (x ∷ xs) (p, h) a (inr o) = All→Occurs P xs h a o

  pub Occurs→All : (P : A → Type 0) (xs : List A) → ((a : A) → Occurs a xs → P a) → All P xs
  Occurs→All P [] h = tt
  Occurs→All P (x ∷ xs) h = (h x (inl refl), Occurs→All P xs (λ a o. h a (inr o)))

  pub any→Occurs :
      (p : A → Bool) (xs : List A) → any p xs ≡ true → (a : A) × Occurs a xs × (p a ≡ true)
  any→Occurs p [] h = absurd (cc (h))
  any→Occurs p (x ∷ xs) h = by_test (p x) refl h (any→Occurs p xs)
    where
      by_test :
          (b : Bool)
          → p x ≡ b
          → (b || any p xs) ≡ true
          → (any p xs ≡ true → (a : A) × Occurs a xs × (p a ≡ true))
          → (a : A) × Occurs a (x ∷ xs) × (p a ≡ true)
      by_test true e h later = (x, inl refl, e)
      by_test false e h later = let (a, o, k) = later h in (a, inr o, k)

  pub Occurs→any : (p : A → Bool) (a : A) (xs : List A) → Occurs a xs → p a ≡ true → any p xs ≡ true
  Occurs→any p a [] o h = absurd o
  Occurs→any p a (x ∷ xs) (inl q) h = rw (ap p (sym q) ∙ h) refl
  Occurs→any p a (x ∷ xs) (inr o) h = ground (arith, Occurs→any p a xs o h)

  pub select-Occurs :
      (p : A → Bool) (a : A) (xs : List A) → Occurs a xs → p a ≡ true → Occurs a (select p xs)
  select-Occurs p a (x ∷ xs) (inl q) h = rw (ap p (sym q) ∙ h) (inl q)
  select-Occurs p a (x ∷ xs) (inr o) h = by_test (p x) (select-Occurs p a xs o h)
    where
      by_test :
          (b : Bool)
          → Occurs a (select p xs)
          → Occurs a (if b then x ∷ select p xs else select p xs)
      by_test true o = inr o
      by_test false o = o
  select-Occurs p a [] o h = absurd o

  pub Occurs-select :
      (p : A → Bool) (a : A) (xs : List A) → Occurs a (select p xs) → Occurs a xs × (p a ≡ true)
  Occurs-select p a [] o = absurd o
  Occurs-select p a (x ∷ xs) o = by_test (p x) refl (Occurs-select p a xs) o
    where
      by_test :
          (b : Bool)
          → p x ≡ b
          → (Occurs a (select p xs) → Occurs a xs × (p a ≡ true))
          → Occurs a (if b then x ∷ select p xs else select p xs)
          → Occurs a (x ∷ xs) × (p a ≡ true)
      by_test true e r (inl q) = (inl q, ap p q ∙ e)
      by_test true e r (inr o) = let (o', h) = r o in (inr o', h)
      by_test false e r o = let (o', h) = r o in (inr o', h)

  pub Occurs-append_left : (a : A) (xs ys : List A) → Occurs a xs → Occurs a (xs ++ ys)
  Occurs-append_left a [] ys o = absurd o
  Occurs-append_left a (x ∷ xs) ys (inl q) = inl q
  Occurs-append_left a (x ∷ xs) ys (inr o) = inr (Occurs-append_left a xs ys o)

  pub Occurs-append_right : (a : A) (xs ys : List A) → Occurs a ys → Occurs a (xs ++ ys)
  Occurs-append_right a [] ys o = o
  Occurs-append_right a (x ∷ xs) ys o = inr (Occurs-append_right a xs ys o)

  pub Occurs-append : (a : A) (xs ys : List A) → Occurs a (xs ++ ys) → Occurs a xs ⊎ Occurs a ys
  Occurs-append a [] ys o = inr o
  Occurs-append a (x ∷ xs) ys (inl q) = inl (inl q)
  Occurs-append a (x ∷ xs) ys (inr o) = later (Occurs-append a xs ys o)
    where
      later : Occurs a xs ⊎ Occurs a ys → Occurs a (x ∷ xs) ⊎ Occurs a ys
      later (inl o) = inl (inr o)
      later (inr o) = inr o

module _ {A B : Type 0} (f : A → B) where
  pub map-Occurs : (a : A) (xs : List A) → Occurs a xs → Occurs (f a) (map f xs)
  map-Occurs a [] o = absurd o
  map-Occurs a (x ∷ xs) (inl q) = inl (ap f q)
  map-Occurs a (x ∷ xs) (inr o) = inr (map-Occurs a xs o)

  -- What occurs in a map is the image of something.
  pub Occurs-map : (b : B) (xs : List A) → Occurs b (map f xs) → (a : A) × Occurs a xs × (b ≡ f a)
  Occurs-map b [] o = absurd o
  Occurs-map b (x ∷ xs) (inl q) = (x, inl refl, q)
  Occurs-map b (x ∷ xs) (inr o) = let (a, o', q) = Occurs-map b xs o in (a, inr o', q)
