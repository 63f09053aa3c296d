-- ===== src/Prelude/Sorting.antt =====
-- Python's sorted: an insertion sort by a test of order, which keeps equal members in their order
-- and holds what the list holds.
use mathlib.Core.Path.{◌≡◌, refl}
use mathlib.Core.Logic.{◌⊎◌, inl, inr}
use mathlib.Core.Bool.{Bool, true, false}
use mathlib.Core.List.{List, [], ◌∷◌}
use harness_auto_test_eviden.Prelude.Tests.{if◌then◌else◌, Bool-cases}
use harness_auto_test_eviden.Prelude.Lists.{Occurs, is_empty}

module _ {A : Type 0} (precedes : A → A → Bool) where
  unfoldable pub insert_by : A → List A → List A
  insert_by a [] = a ∷ []
  insert_by a (x ∷ xs) = let rest = insert_by a xs in if precedes x a then x ∷ rest else a ∷ x ∷ xs

  unfoldable pub sort_by : List A → List A
  sort_by [] = []
  sort_by (a ∷ as') = insert_by a (sort_by as')

  insert_by-Occurs : (a b : A) (xs : List A) → (b ≡ a) ⊎ Occurs b xs → Occurs b (insert_by a xs)
  unfolding insert_by
  insert_by-Occurs a b [] o = o
  insert_by-Occurs a b (x ∷ xs) o = by_order (precedes x a) o (insert_by-Occurs a b xs)
    where
      by_order :
          (t : Bool)
          → (b ≡ a) ⊎ Occurs b (x ∷ xs)
          → ((b ≡ a) ⊎ Occurs b xs → Occurs b (insert_by a xs))
          → Occurs b (if t then x ∷ insert_by a xs else a ∷ x ∷ xs)
      by_order true (inl q) f = inr (f (inl q))
      by_order true (inr (inl q)) f = inl q
      by_order true (inr (inr o)) f = inr (f (inr o))
      by_order false o f = o

  Occurs-insert_by : (a b : A) (xs : List A) → Occurs b (insert_by a xs) → (b ≡ a) ⊎ Occurs b xs
  unfolding insert_by
  Occurs-insert_by a b [] o = o
  Occurs-insert_by a b (x ∷ xs) o = by_order (precedes x a) o (Occurs-insert_by a b xs)
    where
      under : (b ≡ a) ⊎ Occurs b xs → (b ≡ a) ⊎ Occurs b (x ∷ xs)
      under (inl q) = inl q
      under (inr o) = inr (inr o)

      by_order :
          (t : Bool)
          → Occurs b (if t then x ∷ insert_by a xs else a ∷ x ∷ xs)
          → (Occurs b (insert_by a xs) → (b ≡ a) ⊎ Occurs b xs)
          → (b ≡ a) ⊎ Occurs b (x ∷ xs)
      by_order true (inl q) f = inr (inl q)
      by_order true (inr o) f = under (f o)
      by_order false o f = o

  pub sort_by-Occurs : (b : A) (xs : List A) → Occurs b xs → Occurs b (sort_by xs)
  unfolding sort_by
  sort_by-Occurs b [] o = absurd o
  sort_by-Occurs b (x ∷ xs) (inl q) = insert_by-Occurs x b (sort_by xs) (inl q)
  sort_by-Occurs b (x ∷ xs) (inr o) =
      insert_by-Occurs x b (sort_by xs) (inr (sort_by-Occurs b xs o))

  pub Occurs-sort_by : (b : A) (xs : List A) → Occurs b (sort_by xs) → Occurs b xs
  unfolding sort_by
  Occurs-sort_by b [] o = absurd o
  Occurs-sort_by b (x ∷ xs) o = elim (Occurs-insert_by x b (sort_by xs) o) [
    | inl q ↦ inl q
    | inr o' ↦ inr (Occurs-sort_by b xs o')
  ]

  insert_by_some : (a : A) (xs : List A) → is_empty (insert_by a xs) ≡ false
  unfolding insert_by
  insert_by_some a [] = refl
  insert_by_some a (x ∷ xs) = elim (Bool-cases (precedes x a)) [
    | inl h ↦ rw h refl
    | inr h ↦ rw h refl
  ]

  pub sort_by_empty : (xs : List A) → is_empty (sort_by xs) ≡ true → xs ≡ []
  unfolding sort_by
  sort_by_empty [] h = refl
  sort_by_empty (x ∷ xs) h = absurd (cc (h, insert_by_some x (sort_by xs)))
