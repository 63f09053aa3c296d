-- ===== src/Evaluation/Baseline/Folds.antt =====
-- The last event of a kind, and what a loop over the events leaves in one variable.
use harness_auto_test_eviden.Prelude.{
  Bool, true, false, List, [], ◌∷◌, ◌++◌, ◌≡◌, refl, sym, ap, ◌∙◌, ◌⊎◌, inl, inr, Bool-cases, All,
  any, arith, subst,
}

module _ {E : Type 0} where
  -- The event is in the list, the test holds of it, and of none after it.
  pub record IsLast (p : E → Bool) (es : List E) (e : E) : Type 0 where
    pub earlier : List E
    pub later : List E
    pub splits : es ≡ earlier ++ (e ∷ later)
    pub holds : p e ≡ true
    pub none_later : All (λ x. p x ≡ false) later

  -- Either the test holds of no event or there is a last one of which it holds.
  pub last_or_none :
      (p : E → Bool) (es : List E) → All (λ x. p x ≡ false) es ⊎ ((e : E) × IsLast p es e)
  last_or_none p [] = inl tt
  last_or_none p (x ∷ xs) = by_rest (last_or_none p xs)
    where
      here :
          All (λ y. p y ≡ false) xs
          → (p x ≡ true) ⊎ (p x ≡ false)
          → All (λ y. p y ≡ false) (x ∷ xs) ⊎ ((e : E) × IsLast p (x ∷ xs) e)
      here none (inl h) =
          inr (x, record { earlier = []; later = xs; splits = refl; holds = h; none_later = none })
      here none (inr h) = inl (h, none)

      by_rest :
          All (λ y. p y ≡ false) xs ⊎ ((e : E) × IsLast p xs e)
          → All (λ y. p y ≡ false) (x ∷ xs) ⊎ ((e : E) × IsLast p (x ∷ xs) e)
      by_rest (inl none) = here none (Bool-cases (p x))
      by_rest (inr (e, l)) = inr (
        e,
        record {
          earlier = x ∷ l.earlier;
          later = l.later;
          splits = ap (◌∷◌ x) l.splits;
          holds = l.holds;
          none_later = l.none_later;
        },
      )

  abbrev pub fold : {S : Type 0} → (E → S → S) → List E → S → S
  fold u [] s = s
  fold u (e ∷ es) s = fold u es (u e s)

  -- A loop whose variable only the events of the test set, each without regard to its old value.
  module _ {S : Type 0} (u : E → S → S) (p : E → Bool) (value : E → S)
      (keeps : (e : E) (s : S) → p e ≡ false → u e s ≡ s)
      (sets : (e : E) (s : S) → p e ≡ true → u e s ≡ value e) where
    pub fold_none : (es : List E) (s : S) → All (λ x. p x ≡ false) es → fold u es s ≡ s
    fold_none [] s h = refl
    fold_none (e ∷ es) s (h, hs) = fold_none es (u e s) hs ∙ keeps e s h

    fold_split :
        (xs ys : List E) (e : E) (s : S)
        → p e ≡ true
        → All (λ x. p x ≡ false) ys
        → fold u (xs ++ (e ∷ ys)) s ≡ value e
    fold_split [] ys e s h none = fold_none ys (u e s) none ∙ sets e s h
    fold_split (x ∷ xs) ys e s h none = fold_split xs ys e (u x s) h none

    pub fold_last : (es : List E) (e : E) (s : S) → IsLast p es e → fold u es s ≡ value e
    fold_last es e s l =
        ap (λ xs. fold u xs s) l.splits ∙ fold_split l.earlier l.later e s l.holds l.none_later

    -- What the loop leaves has a property exactly where the last event sets such a value, or there
    -- is none and the value before has it.
    pub fold-Holds :
        (P : S → Type 0) (es : List E) (s : S)
        → ((e : E) → IsLast p es e → P (value e))
        → P s
        → P (fold u es s)
    fold-Holds P es s last before = by_last (last_or_none p es)
      where
        by_last : All (λ x. p x ≡ false) es ⊎ ((e : E) × IsLast p es e) → P (fold u es s)
        by_last (inl none) = subst P (sym (fold_none es s none)) before
        by_last (inr (e, l)) = subst P (sym (fold_last es e s l)) (last e l)

    pub fold_cases :
        (P : S → Type 0) (es : List E) (s : S)
        → P (fold u es s)
        → P s ⊎ ((e : E) × IsLast p es e × P (value e))
    fold_cases P es s h = by_last (last_or_none p es)
      where
        by_last :
            All (λ x. p x ≡ false) es ⊎ ((e : E) × IsLast p es e)
            → P s ⊎ ((e : E) × IsLast p es e × P (value e))
        by_last (inl none) = inl (subst P (fold_none es s none) h)
        by_last (inr (e, l)) = inr (e, l, subst P (fold_last es e s l) h)

  pub any→IsLast : (p : E → Bool) (es : List E) → any p es ≡ true → (e : E) × IsLast p es e
  any→IsLast p es h = by_last es h (last_or_none p es)
    where
      impossible : (xs : List E) → any p xs ≡ true → All (λ x. p x ≡ false) xs → ⊥
      impossible [] h none = cc (h)
      impossible (x ∷ xs) h (a, none) = impossible xs (rw a at h) none

      by_last :
          (xs : List E)
          → any p xs ≡ true
          → All (λ x. p x ≡ false) xs ⊎ ((e : E) × IsLast p xs e)
          → (e : E) × IsLast p xs e
      by_last xs h (inl none) = absurd (impossible xs h none)
      by_last xs h (inr l) = l

  any-append : (p : E → Bool) (xs ys : List E) (e : E) → p e ≡ true → any p (xs ++ (e ∷ ys)) ≡ true
  any-append p [] ys e h = rw h refl
  any-append p (x ∷ xs) ys e h = ground (arith, any-append p xs ys e h)

  pub IsLast→any : (p : E → Bool) (es : List E) (e : E) → IsLast p es e → any p es ≡ true
  IsLast→any p es e l = ap (any p) l.splits ∙ any-append p l.earlier l.later e l.holds

  pub any_some : (p : E → Bool) (es : List E) → any p es ≡ true → any (λ x. true) es ≡ true
  any_some p [] h = h
  any_some p (x ∷ xs) h = refl

  -- The very last member is the last with each property that it has.
  pub last-IsLast :
      (p : E → Bool) (es : List E) (e : E) → IsLast (λ x. true) es e → p e ≡ true → IsLast p es e
  last-IsLast p es e l h = record {
    earlier = l.earlier;
    later = l.later;
    splits = l.splits;
    holds = h;
    none_later = nothing l.later l.none_later;
  }
    where
      nothing : (xs : List E) → All (λ x. true ≡ false) xs → All (λ x. p x ≡ false) xs
      nothing [] n = tt
      nothing (x ∷ xs) (n, ns) = absurd (cc (n))
