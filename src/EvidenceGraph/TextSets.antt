-- ===== src/EvidenceGraph/TextSets.antt =====
-- The sets of texts of analyze_graph (p1a_graph.py) as lists: what add, difference, union and
-- sorted keep.
use harness_auto_test_eviden.Prelude.{
  String, Bool, true, false, not, List, [], ◌∷◌, ◌++◌, ◌≡◌, refl, subst, ◌⊎◌, inl, inr, ◌===◌,
  member, is_empty, if◌then◌else◌, Bool-cases, Occurs, eq_iff, select-Occurs, sort_by_empty,
  sort_by-Occurs, Occurs-sort_by, Occurs-append, Occurs-append_left, Occurs-append_right,
}
use harness_auto_test_eviden.EvidenceGraph.{add, difference, union, sort_texts}

pub member-Occurs : (t : String) (ts : List String) → member t ts ≡ true → Occurs t ts
member-Occurs t [] h = absurd (cc (h))
member-Occurs t (u ∷ us) h = elim (Bool-cases (t === u)) [
  | inl e ↦ inl ((eq_iff t u).0 e)
  | inr f ↦ inr (member-Occurs t us (cc (f, h)))
]

pub add-Occurs : (t : String) (ts : List String) → Occurs t (add t ts)
add-Occurs t ts = elim (Bool-cases (member t ts)) [
  | inl h ↦ rw h (member-Occurs t ts h)
  | inr h ↦ rw h (Occurs-append_right t ts (t ∷ []) (inl refl))
]

pub add_keeps : (t u : String) (ts : List String) → Occurs u ts → Occurs u (add t ts)
add_keeps t u ts o = elim (Bool-cases (member t ts)) [
  | inl h ↦ rw h o
  | inr h ↦ rw h (Occurs-append_left u ts (t ∷ []) o)
]

pub Occurs-add : (t u : String) (ts : List String) → Occurs u (add t ts) → Occurs u ts ⊎ (u ≡ t)
Occurs-add t u ts o = by_member (member t ts) o
  where
    last : Occurs u ts ⊎ Occurs u (t ∷ []) → Occurs u ts ⊎ (u ≡ t)
    last (inl o) = inl o
    last (inr (inl q)) = inr q
    last (inr (inr o)) = absurd o

    by_member : (b : Bool) → Occurs u (if b then ts else ts ++ (t ∷ [])) → Occurs u ts ⊎ (u ≡ t)
    by_member true o = inl o
    by_member false o = last (Occurs-append u ts (t ∷ []) o)

difference-Occurs :
    (t : String) (ts us : List String)
    → Occurs t ts
    → member t us ≡ false
    → Occurs t (difference ts us)
difference-Occurs t ts us o h = select-Occurs (λ x. not (member x us)) t ts o (rw h refl)

union-Occurs :
    (t : String) (ts us : List String) → Occurs t ts ⊎ Occurs t us → Occurs t (union ts us)
union-Occurs t ts us (inl o) = Occurs-append_left t ts (difference us ts) o
union-Occurs t ts us (inr o) = elim (Bool-cases (member t ts)) [
  | inl h ↦ Occurs-append_left t ts (difference us ts) (member-Occurs t ts h)
  | inr h ↦ Occurs-append_right t ts (difference us ts) (difference-Occurs t us ts o h)
]

-- Where nothing is left of the risk tests less the executed ones and of the placements, each risk
-- test is executed.
pub left_out :
    (ts us vs : List String) (t : String)
    → union (difference ts us) vs ≡ []
    → Occurs t ts ⊎ Occurs t vs
    → Occurs t us
left_out ts us vs t h (inl o) = elim (Bool-cases (member t us)) [
  | inl m ↦ member-Occurs t us m
  | inr m ↦ absurd (
      subst (Occurs t) h
        (union-Occurs t (difference ts us) vs (inl (difference-Occurs t ts us o m))))
]
left_out ts us vs t h (inr o) =
    absurd (subst (Occurs t) h (union-Occurs t (difference ts us) vs (inr o)))

module _ (lower : String → String) (precedes : String → String → Bool) where
  pub sort_texts_empty :
      (ts : List String) → is_empty (sort_texts lower precedes ts) ≡ true → ts ≡ []
  sort_texts_empty ts h = sort_by_empty precedes ts h

  pub sort_texts-Occurs :
      (u : String) (ts : List String) → Occurs u ts → Occurs u (sort_texts lower precedes ts)
  sort_texts-Occurs u ts o = sort_by-Occurs precedes u ts o

  pub Occurs-sort_texts :
      (u : String) (ts : List String) → Occurs u (sort_texts lower precedes ts) → Occurs u ts
  Occurs-sort_texts u ts o = Occurs-sort_by precedes u ts o
