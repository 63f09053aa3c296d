-- ===== src/CodePoints/Order.antt =====
-- Equality of texts, and the order that `sorted` gives them.
use harness_auto_test_eviden.Prelude.{
  ℕ, String, Bool, true, false, ◌&&◌, ◌||◌, List, [], ◌∷◌, ◌≡◌, refl, ◌==◌, ==_iff, ltb, arith,
  and_true, subst, ◌↔◌,
}
use Prim.Native.Char.{code}

abbrev pub Codes : Type 0
Codes = List ℕ

abbrev pub codes : String → Codes
codes String.[] = []
codes (String.◌∷◌ c s) = code c ∷ codes s

unfoldable pub same_codes : Codes → Codes → Bool
same_codes [] [] = true
same_codes (c ∷ cs) (d ∷ ds) = c == d && same_codes cs ds
same_codes _ _ = false

-- s < t
unfoldable pub before : Codes → Codes → Bool
before [] [] = false
before [] (d ∷ ds) = true
before (c ∷ cs) [] = false
before (c ∷ cs) (d ∷ ds) = ltb c d || (c == d && before cs ds)

-- text.startswith(prefix)
abbrev pub starts_with : Codes → Codes → Bool
starts_with [] s = true
starts_with (p ∷ ps) [] = false
starts_with (p ∷ ps) (c ∷ cs) = p == c && starts_with ps cs

pub same_codes_refl : (s : Codes) → same_codes s s ≡ true
unfolding same_codes
same_codes_refl [] = refl
same_codes_refl (c ∷ cs) = ground (arith, same_codes_refl cs)

same_codes→≡ : (s t : Codes) → same_codes s t ≡ true → s ≡ t
unfolding same_codes
same_codes→≡ [] [] h = refl
same_codes→≡ (c ∷ cs) (d ∷ ds) h =
    let (a, b) = and_true (c == d) (same_codes cs ds) h in
    cc ((==_iff c d).0 a, same_codes→≡ cs ds b)
same_codes→≡ [] (d ∷ ds) h = absurd (cc)
same_codes→≡ (c ∷ cs) [] h = absurd (cc)

pub same_codes_iff : (s t : Codes) → (same_codes s t ≡ true) ↔ (s ≡ t)
same_codes_iff s t =
    (same_codes→≡ s t, λ e. subst (λ u. same_codes s u ≡ true) e (same_codes_refl s))

pub before_irrefl : (s : Codes) → before s s ≡ false
unfolding before
before_irrefl [] = refl
before_irrefl (c ∷ cs) = ground (arith, before_irrefl cs)

pub before_asymm : (s t : Codes) → before s t ≡ true → before t s ≡ false
unfolding before
before_asymm [] (d ∷ ds) h = refl
before_asymm (c ∷ cs) (d ∷ ds) h = ground (arith, before_asymm cs ds)
before_asymm [] [] h = absurd (cc)
before_asymm (c ∷ cs) [] h = absurd (cc)

pub before_trans : (s t u : Codes) → before s t ≡ true → before t u ≡ true → before s u ≡ true
unfolding before
before_trans [] (d ∷ ds) (e ∷ es) h k = refl
before_trans (c ∷ cs) (d ∷ ds) (e ∷ es) h k = ground (arith, before_trans cs ds es)
before_trans [] [] u h k = absurd (cc)
before_trans (c ∷ cs) [] u h k = absurd (cc)
before_trans [] (d ∷ ds) [] h k = absurd (cc)
before_trans (c ∷ cs) (d ∷ ds) [] h k = absurd (cc)

-- Two texts of which neither is before the other are one.
pub before_connex : (s t : Codes) → before s t ≡ false → same_codes s t ≡ false → before t s ≡ true
unfolding before same_codes
before_connex [] [] h k = absurd (cc)
before_connex [] (d ∷ ds) h k = absurd (cc)
before_connex (c ∷ cs) [] h k = refl
before_connex (c ∷ cs) (d ∷ ds) h k = ground (arith, before_connex cs ds)
