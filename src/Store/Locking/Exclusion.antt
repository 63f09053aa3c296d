-- ===== src/Store/Locking/Exclusion.antt =====
-- Every step of the lock and the sessions of a store keeps their invariant (locking.py), and so two
-- threads are never in a session at once.
use harness_auto_test_eviden.Prelude.{
  ℕ, Bool, true, false, Option, none, some, List, [], ◌∷◌, ◌≡◌, refl, sym, ap, ◌∙◌, subst, ◌==◌,
  ==_iff, by_test,
}
use harness_auto_test_eviden.Store.Locking.{
  Frame, nested_lock, owned_lock, nested_session, own_session, Thread, Locks, put, acquire,
  enter_lock, leave_frame, leave, open_session, recover_in, enter_session, Step, locks, leaves,
  begins, IsReachable, at_start, after,
}
use harness_auto_test_eviden.Store.Locking.Invariant.{
  has_lock, has_session, IsNested, IsSound, session_in_lock, no_session, put-IsSound,
  frames-IsSound,
}

other : (s : Locks) (t u : ℕ) → (u == t) ≡ false → some t ≡ some u → ⊥
other s t u d e = absurd (cc (d, (==_iff u t).1 (cc (e))))

acquire-IsSound :
    (t : ℕ) (s s' : Locks) (o : Option ℕ)
    → IsSound s
    → s.owner ≡ o
    → (s.threads t).held ≡ false
    → acquire t s o ≡ some s'
    → IsSound s'
acquire-IsSound t s s' none h free n e =
    let b = h.balanced t in
    let unlocked : has_lock (s.threads t).frames ≡ false = sym b.held ∙ n in
    let made : record {
      owner = some t;
      threads =
          put s t
            (record (s.threads t) { held = true; frames = owned_lock ∷ (s.threads t).frames });
    }
        ≡ s' =
      cc (e) in
    subst IsSound made (
      put-IsSound s t _ (some t) h
        (record {
          held = refl;
          session = b.session;
          nested = (unlocked, no_session _ b.nested unlocked, b.nested);
        })
        ((λ _. refl), (λ _. refl))
        (λ u d. ((λ x. absurd (cc (free, x))), (λ x. absurd (other s t u d x)))))
acquire-IsSound t s s' (some u) h free n e = absurd (cc (e))

enter_lock-IsSound : (t : ℕ) (s s' : Locks) → IsSound s → enter_lock t s ≡ some s' → IsSound s'
unfolding enter_lock
enter_lock-IsSound t s s' h =
    by_test (λ o. o ≡ some s' → IsSound s') (s.threads t).held _ _
      (λ y e.
        let b = h.balanced t in
        let made : record s {
          threads = put s t (record (s.threads t) { frames = nested_lock ∷ (s.threads t).frames });
        }
            ≡ s' =
          cc (e) in
        subst IsSound made (
          frames-IsSound s t _ h
            (record { held = b.held; session = b.session; nested = (sym b.held ∙ y, b.nested) })
            refl))
      (λ n e. acquire-IsSound t s s' s.owner h refl n e)

frames_left :
    (t : ℕ) (s : Locks) (fs : List Frame)
    → IsSound s
    → (s.threads t).frames ≡ fs
    → IsSound (leave_frame t s fs)
frames_left t s [] h q = h
frames_left t s (nested_lock ∷ fs) h q =
    let b = h.balanced t in
    frames-IsSound s t _ h
      (record {
        held = b.held ∙ ap has_lock q;
        session = b.session ∙ ap has_session q;
        nested = (subst IsNested q b.nested).1;
      })
      refl
frames_left t s (nested_session ∷ fs) h q =
    let b = h.balanced t in
    frames-IsSound s t _ h
      (record {
        held = b.held ∙ ap has_lock q;
        session = b.session ∙ ap has_session q;
        nested = (subst IsNested q b.nested).1;
      })
      refl
frames_left t s (own_session ∷ fs) h q =
    let b = h.balanced t in
    let n = subst IsNested q b.nested in
    frames-IsSound s t _ h
      (record { held = b.held ∙ ap has_lock q; session = sym n.1; nested = n.2 }) refl
frames_left t s (owned_lock ∷ fs) h q =
    let b = h.balanced t in
    let n = subst IsNested q b.nested in
    let mine : s.owner ≡ some t = (h.owner t).0 (b.held ∙ ap has_lock q) in
    put-IsSound s t _ none h
      (record { held = sym n.0; session = b.session ∙ ap has_session q; nested = n.2 })
      ((λ x. absurd (cc (x))), (λ x. absurd (cc (x))))
      (λ u d. ((λ x. absurd (other s t u d (sym mine ∙ x))), (λ x. absurd (cc (x)))))

leave-IsSound : (t : ℕ) (s : Locks) → IsSound s → IsSound (leave t s)
unfolding leave
leave-IsSound t s h = frames_left t s (s.threads t).frames h refl

open_session-IsSound :
    (t : ℕ) (s : Locks)
    → IsSound s
    → (s.threads t).held ≡ true
    → (s.threads t).in_session ≡ false
    → IsSound (open_session t s)
open_session-IsSound t s h y n =
    let b = h.balanced t in
    frames-IsSound s t _ h
      (record {
        held = b.held;
        session = refl;
        nested = (sym b.held ∙ y, sym b.session ∙ n, b.nested);
      })
      refl

put_self : (s : Locks) (t : ℕ) (th : Thread) → put s t th t ≡ th
put_self s t th = rw ((==_iff t t).1 refl) refl

-- A lock that was entered is held, and leaves the session flag of its thread.
entered_held :
    (t : ℕ) (s s' : Locks)
    → enter_lock t s ≡ some s'
    → ((s'.threads t).held ≡ true) × ((s'.threads t).in_session ≡ (s.threads t).in_session)
unfolding enter_lock
entered_held t s s' =
    by_test (λ o. o ≡ some s' → Held s') (s.threads t).held _ _
      (λ y e.
        let th = record (s.threads t) { frames = nested_lock ∷ (s.threads t).frames } in
        let made : record s { threads = put s t th } ≡ s' = cc (e) in
        subst Held made (
          ap (λ (x : Thread). x.held) (put_self s t th) ∙ y,
          ap (λ (x : Thread). x.in_session) (put_self s t th),
        ))
      (λ n e. acquired s.owner e)
  where
    Held : Locks → Type 0
    Held v = ((v.threads t).held ≡ true) × ((v.threads t).in_session ≡ (s.threads t).in_session)

    acquired : (o : Option ℕ) → acquire t s o ≡ some s' → Held s'
    acquired none e =
        let th = record (s.threads t) { held = true; frames = owned_lock ∷ (s.threads t).frames } in
        let made : record { owner = some t; threads = put s t th } ≡ s' = cc (e) in
        subst Held made (
          ap (λ (x : Thread). x.held) (put_self s t th),
          ap (λ (x : Thread). x.in_session) (put_self s t th),
        )
    acquired (some u) e = absurd (cc (e))

enter_session-IsSound :
    (supported recovered : Bool) (t : ℕ) (s : Locks)
    → IsSound s
    → IsSound (enter_session supported recovered t s).1
unfolding enter_session
enter_session-IsSound supported recovered t s h =
    by_test (λ (r : Bool × Locks). IsSound r.1) (s.threads t).in_session _ _
      (λ y.
        let b = h.balanced t in
        frames-IsSound s t _ h
          (record { held = b.held; session = b.session; nested = (sym b.session ∙ y, b.nested) })
          refl)
      (λ n.
        by_test (λ (r : Bool × Locks). IsSound r.1) supported _ _
          (λ _. tried recovered (enter_lock t s) refl n) (λ _. h))
  where
    tried :
        (recovered : Bool) (o : Option Locks)
        → enter_lock t s ≡ o
        → (s.threads t).in_session ≡ false
        → IsSound (recover_in recovered t o s).1
    tried recovered none q n = h
    tried true (some s') q n =
        let (y, same) = entered_held t s s' q in
        open_session-IsSound t s' (enter_lock-IsSound t s s' h q) y (same ∙ n)
    tried false (some s') q n = leave-IsSound t s' (enter_lock-IsSound t s s' h q)

Step-IsSound : (s s' : Locks) → IsSound s → Step s s' → IsSound s'
Step-IsSound s s' h (locks t e) = enter_lock-IsSound t s s' h e
Step-IsSound s s' h (leaves t) = leave-IsSound t s h
Step-IsSound s s' h (begins supported recovered t) = enter_session-IsSound supported recovered t s h

-- In every state that threads reach by entering and leaving locks and sessions in any order, the
-- flags of every thread agree with its open with statements, and the owner of the file lock is
-- exactly the thread whose flag says that it holds the lock.
pub reachable-IsSound : (s : Locks) → IsReachable s → IsSound s
reachable-IsSound s at_start = record {
  balanced = λ t. record { held = refl; session = refl; nested = tt };
  owner = λ t. ((λ x. absurd (cc (x))), (λ x. absurd (cc (x))));
}
reachable-IsSound s' (after {s} r step) = Step-IsSound s s' (reachable-IsSound s r) step

-- Two threads that are in a session of the store at the same time are the same thread.
pub sessions-exclude :
    (s : Locks) (t u : ℕ)
    → IsReachable s
    → (s.threads t).in_session ≡ true
    → (s.threads u).in_session ≡ true
    → t ≡ u
sessions-exclude s t u r x y = let h = reachable-IsSound s r in cc (holder h t x, holder h u y)
  where
    holder : IsSound s → (t : ℕ) → (s.threads t).in_session ≡ true → s.owner ≡ some t
    holder h t x =
        let b = h.balanced t in
        (h.owner t).0 (b.held ∙ session_in_lock _ b.nested (sym b.session ∙ x))
