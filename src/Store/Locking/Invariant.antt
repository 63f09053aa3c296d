-- ===== src/Store/Locking/Invariant.antt =====
-- The invariant of the lock and the sessions of a store (locking.py).
use harness_auto_test_eviden.Prelude.{
  ℕ, Bool, true, false, Option, some, List, [], ◌∷◌, ◌≡◌, refl, sym, ◌∙◌, subst, ◌↔◌, ◌==◌, ==_iff,
  by_test, Bool-cases, inl, inr,
}
use harness_auto_test_eviden.Store.Locking.{
  Frame, nested_lock, owned_lock, nested_session, own_session, Thread, Locks, put,
}

abbrev pub has_lock : List Frame → Bool
has_lock [] = false
has_lock (owned_lock ∷ fs) = true
has_lock (nested_lock ∷ fs) = has_lock fs
has_lock (nested_session ∷ fs) = has_lock fs
has_lock (own_session ∷ fs) = has_lock fs

abbrev pub has_session : List Frame → Bool
has_session [] = false
has_session (own_session ∷ fs) = true
has_session (owned_lock ∷ fs) = has_session fs
has_session (nested_lock ∷ fs) = has_session fs
has_session (nested_session ∷ fs) = has_session fs

-- A lock is owned once, a session opened once and inside the lock, and the nested ones are inside
-- their own.
abbrev pub IsNested : List Frame → Type 0
IsNested [] = Unit
IsNested (owned_lock ∷ fs) = (has_lock fs ≡ false) × (has_session fs ≡ false) × IsNested fs
IsNested (nested_lock ∷ fs) = (has_lock fs ≡ true) × IsNested fs
IsNested (own_session ∷ fs) = (has_lock fs ≡ true) × (has_session fs ≡ false) × IsNested fs
IsNested (nested_session ∷ fs) = (has_session fs ≡ true) × IsNested fs

-- The frames of a thread agree with its two flags.
pub record IsBalanced (th : Thread) : Type 0 where
  pub held : th.held ≡ has_lock th.frames
  pub session : th.in_session ≡ has_session th.frames
  pub nested : IsNested th.frames

-- Every thread is balanced, and the owner of the file lock is the one that holds it.
pub record IsSound (s : Locks) : Type 0 where
  pub balanced : (t : ℕ) → IsBalanced (s.threads t)
  pub owner : (t : ℕ) → ((s.threads t).held ≡ true) ↔ (s.owner ≡ some t)

pub session_in_lock : (fs : List Frame) → IsNested fs → has_session fs ≡ true → has_lock fs ≡ true
session_in_lock [] n h = absurd (cc (h))
session_in_lock (owned_lock ∷ fs) n h = refl
session_in_lock (nested_lock ∷ fs) n h = n.0
session_in_lock (own_session ∷ fs) n h = n.0
session_in_lock (nested_session ∷ fs) n h = session_in_lock fs n.1 h

pub no_session : (fs : List Frame) → IsNested fs → has_lock fs ≡ false → has_session fs ≡ false
no_session fs n f = elim (Bool-cases (has_session fs)) [
  | inl t ↦ absurd (cc (f, session_in_lock fs n t))
  | inr g ↦ g
]

-- One thread changes, and the owner with it.
pub put-IsSound :
    (s : Locks) (t : ℕ) (th : Thread) (o : Option ℕ)
    → IsSound s
    → IsBalanced th
    → (th.held ≡ true) ↔ (o ≡ some t)
    → ((u : ℕ) → (u == t) ≡ false → (s.owner ≡ some u) ↔ (o ≡ some u))
    → IsSound (record { owner = o; threads = put s t th })
put-IsSound s t th o h b own others = record {
  balanced = λ u. by_test IsBalanced (u == t) th (s.threads u) (λ _. b) (λ _. h.balanced u);
  owner = λ u.
      by_test (λ (x : Thread). (x.held ≡ true) ↔ (o ≡ some u)) (u == t) th (s.threads u)
        (λ e. subst (λ v. (th.held ≡ true) ↔ (o ≡ some v)) (sym ((==_iff u t).0 e)) own)
        (λ d. ((λ x. (others u d).0 ((h.owner u).0 x)), (λ x. (h.owner u).1 ((others u d).1 x))));
}

-- A change of the frames alone.
pub frames-IsSound :
    (s : Locks) (t : ℕ) (th : Thread)
    → IsSound s
    → IsBalanced th
    → th.held ≡ (s.threads t).held
    → IsSound (record s { threads = put s t th })
frames-IsSound s t th h b same =
    put-IsSound s t th s.owner h b
      ((λ x. (h.owner t).0 (sym same ∙ x)), (λ x. same ∙ (h.owner t).1 x))
      (λ u d. ((λ x. x), (λ x. x)))
