-- ===== src/Retention/Reports.antt =====
-- The readiness effect of a retention report (_max_effect in retention.py).
use harness_auto_test_eviden.Prelude.{
  ℕ, ◌≤◌, true, false, List, [], ◌∷◌, ◌≡◌, refl, ◌∙◌, ◌⊎◌, inl, inr, ltb, All, Occurs, is_empty,
  by_test, arith,
}
use harness_auto_test_eviden.Retention.{Effect, rank, worse, larger, max_effect}

worse-rank : (a b : Effect) → (rank a ≤ rank (worse a b)) × (rank b ≤ rank (worse a b))
worse-rank a b =
    by_test (λ e. (rank a ≤ rank e) × (rank b ≤ rank e)) (ltb (rank a) (rank b)) _ _
      (λ t. (below _ _ t, omega arith)) (λ f. (omega arith, above _ _ f))
  where
    below : (m n : ℕ) → ltb m n ≡ true → m ≤ n
    below m n t = ground arith

    above : (m n : ℕ) → ltb m n ≡ false → n ≤ m
    above m n f = ground arith

larger-rank :
    (best : Effect) (es : List Effect)
    → (rank best ≤ rank (larger best es)) × All (λ e. rank e ≤ rank (larger best es)) es
larger-rank best [] = (omega arith, tt)
larger-rank best (e ∷ es) =
    let (top, rest) = larger-rank (worse best e) es in
    let (a, b) = worse-rank best e in (omega (arith, top, a), (omega (arith, top, b), rest))

larger-Occurs : (best : Effect) (es : List Effect) → Occurs (larger best es) (best ∷ es)
larger-Occurs best [] = inl refl
larger-Occurs best (e ∷ es) = elim (larger-Occurs (worse best e) es) [
  | inl q ↦ elim (worse_choice best e) [ inl c ↦ inl (q ∙ c) | inr c ↦ inr (inl (q ∙ c)) ]
  | inr o ↦ inr (inr o)
]
  where
    worse_choice : (a b : Effect) → (worse a b ≡ a) ⊎ (worse a b ≡ b)
    worse_choice a b =
        by_test (λ x. (x ≡ a) ⊎ (x ≡ b)) (ltb (rank a) (rank b)) _ _ (λ _. inr refl) (λ _. inl refl)

-- The effect of a report with at least one evaluation is one of theirs, and no evaluation has a
-- worse one.
max_effect-Occurs :
    (es : List Effect)
    → is_empty es ≡ false
    → Occurs (max_effect es) es × All (λ e. rank e ≤ rank (max_effect es)) es
unfolding max_effect
max_effect-Occurs [] h = absurd (cc (h))
max_effect-Occurs (e ∷ es) h = (larger-Occurs e es, larger-rank e es)
